-- ===== src/Stages/Effector/Restore.antt =====
-- The stages that flip whole bytes put every byte back.
use native.Mathlib.Nat.{pow-suc}
use nfuzzer.Base.{
  ℕ, zero, suc, ◌+◌, ◌-◌, ◌^◌, ◌≤◌, ◌<◌, ◌≡◌, refl, sym, ap, ◌∙◌, arith, Bool, List, length, get_or,
  set, bit_xor, get_or-set_self,
}
use nfuzzer.Base.Bytes.{IsBytes, load, store, load-store, length-store, load-lt}
use nfuzzer.Base.Xor.{bit_xor-twice, bit_xor-lt}
use nfuzzer.Stages.Flip.{set-set_self, set-get_or}
use nfuzzer.Stages.Words.{
  put, bytes_at, put-put, put-bytes_at, store-bytes_at, length-bytes_at, bytes_at-put,
  bytes_at-IsBytes,
}
use nfuzzer.Stages.Tries.{Stage, Going, >>=-Going, branch-Going, is_idle}
use nfuzzer.Stages.Tries.Restore.{run_target-Going, IsRestored}
use nfuzzer.Stages.Effector.{
  Probing, flip_byte, flip_word, probe_byte, probe_bytes, bitflip_bytes, flip_word_at, flip_words,
  bitflip_words,
}
use nfuzzer.Stages.Effector.Flags.{AreCounted, note_effect-AreCounted, start_effects-AreCounted}

flip_byte-twice :
    (buf : List ℕ) (pos : ℕ) → pos < length buf → flip_byte (flip_byte buf pos) pos ≡ buf
unfolding flip_byte
flip_byte-twice buf pos h =
    let v = bit_xor (get_or buf pos 0) 0xff in
    ap (λ (t : ℕ). set (set buf pos v) pos (bit_xor t 0xff)) (get_or-set_self buf pos v 0 h)
    ∙ set-set_self buf pos v (bit_xor v 0xff)
    ∙ ap (λ (t : ℕ). set buf pos t) (bit_xor-twice (get_or buf pos 0) 0xff)
    ∙ set-get_or buf pos 0

positive : (w : ℕ) → 0 < 2 ^ w
positive zero = omega arith
positive (suc w) = omega (arith, positive w, pow-suc 2 w)

-- `w` bits are `n` bytes.
flip_word-twice :
    (n w i : ℕ) (buf : List ℕ)
    → 2 ^ w ≡ 256 ^ n
    → IsBytes buf
    → i + n ≤ length buf
    → flip_word n (flip_word n buf i) i ≡ buf
unfolding flip_word
flip_word-twice n w i buf size bytes h =
    let old = load (bytes_at i n buf) in
    let ones = 256 ^ n - 1 in
    let new = store n (bit_xor old ones) in
    let width : length new ≡ n = length-store n (bit_xor old ones) in
    let small : old < 2 ^ w =
      rw (size, ap (λ (k : ℕ). 256 ^ k) (sym (length-bytes_at i n buf h)))
        (load-lt (bytes_at i n buf) (bytes_at-IsBytes i n buf bytes)) in
    let fits : bit_xor old ones < 256 ^ n =
      omega (arith, size, bit_xor-lt w old ones small (omega (arith, size, positive w))) in
    let read : load (bytes_at i n (put i new buf)) ≡ bit_xor old ones =
      ap (λ (k : ℕ). load (bytes_at i k (put i new buf))) (sym width)
      ∙ ap load (bytes_at-put i new buf (omega (arith, width)))
      ∙ load-store n (bit_xor old ones) fits in
    put-put i (store n (bit_xor (load (bytes_at i n (put i new buf))) ones)) new buf
      (omega (arith, width, length-store n (bit_xor (load (bytes_at i n (put i new buf))) ones)))
    ∙ ap (λ (t : ℕ). put i (store n (bit_xor t ones)) buf) read
    ∙ ap (λ (t : ℕ). put i (store n t) buf) (bit_xor-twice old ones)
    ∙ ap (λ (t : List ℕ). put i t buf) (store-bytes_at i n buf h bytes)
    ∙ put-bytes_at i n buf

module _ {S : Type 0} (fuzz_stuff : S → List ℕ → S × Bool) (buf : List ℕ) where
  flip_word_at-IsRestored :
      (eff_map : List ℕ) (n w i k : ℕ) (t : Stage S)
      → 2 ^ w ≡ 256 ^ n
      → IsBytes buf
      → i + n ≤ length buf
      → IsRestored buf (suc k) t
      → Going (IsRestored buf k) (flip_word_at fuzz_stuff eff_map n i t)
  unfolding flip_word_at
  flip_word_at-IsRestored eff_map n w i k t size bytes h r =
      branch-Going (IsRestored buf k) (is_idle eff_map i n) _ _ (λ e. (r.0, omega (arith, r.1)))
        (λ e.
          >>=-Going
            (λ (t' : Stage S).
              (t'.out_buf ≡ flip_word n buf i) × (t'.stage_max ≡ t'.stage_cur + suc k))
            (IsRestored buf k) _ _
            (run_target-Going fuzz_stuff _ (record t { out_buf = flip_word n t.out_buf i })
              (λ s. (ap (λ (b : List ℕ). flip_word n b i) r.0, r.1)))
            (λ t' o. (
              ap (λ (b : List ℕ). flip_word n b i) o.0 ∙ flip_word-twice n w i buf size bytes h,
              omega (arith, o.1),
            )))

  flip_words-IsRestored :
      (eff_map : List ℕ) (n w left i : ℕ) (t : Stage S)
      → 2 ^ w ≡ 256 ^ n
      → IsBytes buf
      → left + i + n ≤ length buf + 1
      → IsRestored buf left t
      → Going (IsRestored buf 0) (flip_words fuzz_stuff eff_map n left i t)
  unfolding flip_words
  flip_words-IsRestored eff_map n w zero i t size bytes h r = r
  flip_words-IsRestored eff_map n w (suc left) i t size bytes h r =
      >>=-Going (IsRestored buf left) (IsRestored buf 0) _ _
        (flip_word_at-IsRestored eff_map n w i left t size bytes (omega arith) r)
        (λ t' o. flip_words-IsRestored eff_map n w left (i + 1) t' size bytes (omega arith) o)

  pub bitflip_words-IsRestored :
      (eff_map : List ℕ) (n w : ℕ) (s : S)
      → 2 ^ w ≡ 256 ^ n
      → IsBytes buf
      → n ≤ length buf
      → Going (IsRestored buf 0) (bitflip_words fuzz_stuff n eff_map buf s)
  unfolding bitflip_words
  bitflip_words-IsRestored eff_map n w s size bytes h =
      flip_words-IsRestored eff_map n w (length buf + 1 - n) 0 _ size bytes (omega arith)
        (refl, omega arith)

  module _ (cksum_of : S → ℕ) (exec_cksum : ℕ) (dumb_mode : Bool) where
    abbrev pub IsProbed : ℕ → Probing S → Type 0
    IsProbed left p =
        (p.stage.out_buf ≡ buf)
        × (p.stage.stage_cur + left ≡ length buf)
        × AreCounted (length buf) p.effects

    probe_byte-kept :
        (left : ℕ) (p : Probing S)
        → IsProbed (suc left) p
        → Going
            (λ (p' : Probing S).
              (p'.stage.out_buf ≡ buf)
              × (p'.stage.stage_cur + suc left ≡ length buf)
              × AreCounted (length buf) p'.effects)
            (probe_byte fuzz_stuff cksum_of exec_cksum dumb_mode p)
    unfolding probe_byte
    probe_byte-kept left p h =
        let pos = p.stage.stage_cur in
        >>=-Going (λ (t : Stage S). (t.out_buf ≡ flip_byte buf pos) × (t.stage_cur ≡ pos)) _ _ _
          (run_target-Going fuzz_stuff _
            (record (p.stage) { out_buf = flip_byte p.stage.out_buf pos })
            (λ s. (ap (λ (b : List ℕ). flip_byte b pos) h.0, refl)))
          (λ t o. (
            ap (λ (b : List ℕ). flip_byte b pos) o.0 ∙ flip_byte-twice buf pos (omega (arith, h.1)),
            omega (arith, o.1, h.1),
            note_effect-AreCounted (length buf) pos _ p.effects (omega (arith, h.1)) h.2,
          ))

    probe_bytes-kept :
        (left : ℕ) (p : Probing S)
        → IsProbed left p
        → Going (IsProbed 0) (probe_bytes fuzz_stuff cksum_of exec_cksum dumb_mode left p)
    unfolding probe_bytes
    probe_bytes-kept zero p h = h
    probe_bytes-kept (suc left) p h =
        >>=-Going _ (IsProbed 0) _ _ (probe_byte-kept left p h) (λ p' o.
          probe_bytes-kept left
            (record p' { stage = record (p'.stage) { stage_cur = p'.stage.stage_cur + 1 } })
            (o.0, omega (arith, o.1), o.2))

    pub bitflip_bytes-IsProbed :
        (s : S)
        → 0 < length buf
        → Going (IsProbed 0) (bitflip_bytes fuzz_stuff cksum_of exec_cksum dumb_mode buf s)
    unfolding bitflip_bytes
    bitflip_bytes-IsProbed s h =
        probe_bytes-kept (length buf) _ (refl, omega arith, start_effects-AreCounted (length buf) h)
