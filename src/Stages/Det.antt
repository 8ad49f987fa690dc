-- ===== src/Stages/Det.antt =====
-- The deterministic part of fuzz_one() in fuzzer/afl-fuzz.c: all its stages in their order.
use nfuzzer.Base.{
  ℕ, ◌+◌, ◌≤◌, ◌<◌, ◌≡◌, refl, ◌∙◌, arith, Bool, true, false, ltb, ◌==◌, List, [], ◌∷◌, length,
}
use nfuzzer.Stages.Tries.{Stage, Outcome, going, abandoned, ◌>>=◌}
use nfuzzer.Stages.Walk.{Collecting, bitflip, bitflip_collecting}
use nfuzzer.Stages.Effector.{Probing, bitflip_bytes, bitflip_words, settle}
use nfuzzer.Stages.Values.{arith8, arith16, arith32, interest8, interest16, interest32}
use nfuzzer.Stages.Extras.{Extra, user_over, user_insert, auto_over}
pub mod Kept

-- What the stages call: common_fuzz_stuff(), the checksum of the trace, maybe_add_auto(), UR() and
-- the list of automatic extras, all on a world `S`.
pub record Engine (S : Type 0) : Type 0 where
  pub fuzz_stuff : S → List ℕ → S × Bool
  pub cksum_of : S → ℕ
  pub add_auto : S → List ℕ → S
  pub ur : S → ℕ → S × ℕ
  pub a_extras : S → List Extra

-- The settings and the entry.
pub record Job : Type 0 where
  pub dumb_mode : Bool
  pub no_arith : Bool
  pub exec_cksum : ℕ
  pub extras : List Extra

-- `out_buf` and the world between two stages.
pub record Point (S : Type 0) : Type 0 where
  pub out_buf : List ℕ
  pub world : S

module _ {S : Type 0} (engine : Engine S) where
  -- What a finished stage leaves.
  unfoldable pub after : Outcome S (Stage S) → Outcome S (Point S)
  after o = do t ← o; going (record { out_buf = t.out_buf; world = t.world })

  -- A stage that is left out for a condition.
  unfoldable pub unless : Bool → (List ℕ → S → Outcome S (Stage S)) → Point S → Outcome S (Point S)
  unless skip stage p = elim skip [ true ↦ going p | false ↦ after (stage p.out_buf p.world) ]

  -- From bitflip 8/8 to `skip_bitflip`, with the effector map that the later stages consult.
  unfoldable pub byte_flips : Job → List ℕ → S → Outcome S (Point S × List ℕ)
  byte_flips job buf s = do
    p ← bitflip_bytes engine.fuzz_stuff engine.cksum_of job.exec_cksum job.dumb_mode buf s
    let eff_map = (settle (length buf) p.effects).0.eff_map
    p16 ←
        unless (ltb (length buf) 2) (bitflip_words engine.fuzz_stuff 2 eff_map)
          (record { out_buf = p.stage.out_buf; world = p.stage.world })
    p32 ← unless (ltb (length buf) 4) (bitflip_words engine.fuzz_stuff 4 eff_map) p16
    going (p32, eff_map)

  -- Up to `skip_bitflip`.
  unfoldable pub flips : Job → List ℕ → S → Outcome S (Point S × List ℕ)
  flips job buf s = do
    c ←
        bitflip_collecting engine.fuzz_stuff engine.cksum_of engine.add_auto job.exec_cksum
          job.dumb_mode buf s
    t2 ← bitflip engine.fuzz_stuff 2 c.stage.out_buf c.stage.world
    t4 ← bitflip engine.fuzz_stuff 4 t2.out_buf t2.world
    byte_flips job t4.out_buf t4.world

  -- Up to `skip_arith`.
  unfoldable pub ariths : Job → List ℕ → Point S → Outcome S (Point S)
  ariths job eff_map p = elim job.no_arith [
    | true ↦ going p
    | false ↦ do
      p8 ← after (arith8 engine.fuzz_stuff eff_map p.out_buf p.world)
      p16 ← unless (ltb (length p.out_buf) 2) (arith16 engine.fuzz_stuff eff_map) p8
      unless (ltb (length p.out_buf) 4) (arith32 engine.fuzz_stuff eff_map) p16
  ]

  -- Up to `skip_interest`.
  unfoldable pub interests : Job → List ℕ → Point S → Outcome S (Point S)
  interests job eff_map p = do
    p8 ← after (interest8 engine.fuzz_stuff eff_map p.out_buf p.world)
    elim job.no_arith [
      | true ↦ going p8
      | false ↦ do
        p16 ← unless (ltb (length p.out_buf) 2) (interest16 engine.fuzz_stuff eff_map) p8
        unless (ltb (length p.out_buf) 4) (interest32 engine.fuzz_stuff eff_map) p16
    ]

  -- Up to `skip_extras`. A dictionary with no tokens is passed over.
  unfoldable pub dictionary : Job → List ℕ → Point S → Outcome S (Point S)
  dictionary job eff_map p = do
    over ←
        unless (length job.extras == 0) (user_over engine.fuzz_stuff engine.ur eff_map job.extras) p
    inserted ← unless (length job.extras == 0) (user_insert engine.fuzz_stuff job.extras) over
    unless (length (engine.a_extras inserted.world) == 0)
        (auto_over engine.fuzz_stuff eff_map (engine.a_extras inserted.world)) inserted

  unfoldable pub deterministic : Job → List ℕ → S → Outcome S (Point S)
  deterministic job buf s = do
    (p, eff_map) ← flips job buf s
    p' ← ariths job eff_map p
    p'' ← interests job eff_map p'
    dictionary job eff_map p''
