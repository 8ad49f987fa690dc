-- ===== src/Auto/Rearrange.antt =====
-- What a rearrangement of tokens keeps.
use nfuzzer.Base.{suc, ◌≡◌, refl, ◌∙◌, ap, List, [], ◌∷◌, length}
use nfuzzer.Base.Bytes.{All}
use nfuzzer.Stages.Extras.{Extra}
use nfuzzer.Auto.{Rearranged, same, keep, swap, follow}

pub length-Rearranged : {xs ys : List Extra} → Rearranged xs ys → length ys ≡ length xs
length-Rearranged same = refl
length-Rearranged (keep e r) = ap suc (length-Rearranged r)
length-Rearranged (swap e f) = refl
length-Rearranged (follow r s) = length-Rearranged s ∙ length-Rearranged r

pub All-Rearranged :
    (P : Extra → Type 0) {xs ys : List Extra} → Rearranged xs ys → All P xs → All P ys
All-Rearranged P same h = h
All-Rearranged P (keep e r) h = (h.0, All-Rearranged P r h.1)
All-Rearranged P (swap e f) h = (h.1.0, (h.0, h.1.1))
All-Rearranged P (follow r s) h = All-Rearranged P s (All-Rearranged P r h)

-- Any two tokens are told apart by a relation.
abbrev pub Distinct : (Extra → Extra → Type 0) → List Extra → Type 0
Distinct R [] = Unit
Distinct R (e ∷ es) = All (R e) es × Distinct R es

pub Distinct-Rearranged :
    (R : Extra → Extra → Type 0)
    → ((e f : Extra) → R e f → R f e)
    → {xs ys : List Extra} → Rearranged xs ys
    → Distinct R xs
    → Distinct R ys
Distinct-Rearranged R back same h = h
Distinct-Rearranged R back (keep e r) h =
    (All-Rearranged (R e) r h.0, Distinct-Rearranged R back r h.1)
Distinct-Rearranged R back (swap e f) h = ((back e f h.0.0, h.1.0), (h.0.1, h.1.1))
Distinct-Rearranged R back (follow r s) h =
    Distinct-Rearranged R back s (Distinct-Rearranged R back r h)
