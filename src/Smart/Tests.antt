-- ===== src/Smart/Tests.antt =====
-- A chunk of a file of four bytes.
use nfuzzer.Base.{ℕ, ◌≡◌, ◌<◌, ◌⊎◌, arith, true, [], ◌∷◌, length}
use nfuzzer.Tree.{Fields, null, chunk}
use nfuzzer.Mutate.Draw.{Ensures}
use nfuzzer.Smart.{Subject, resize_chunk, delete_at}
use nfuzzer.Smart.Gaps.{IsInside, IsDeleted, Faults, resize_chunk-Faults, delete_at_lem}

abbrev two_bytes : Fields
two_bytes = record {
  address = 1;
  id = 1;
  type = 7;
  start_byte = 1;
  end_byte = 2;
  modifiable = true;
}

abbrev four_bytes : Subject
four_bytes = record {
  tree = chunk two_bytes null null;
  out_buf = 10 ∷ 20 ∷ 30 ∷ 40 ∷ 0 ∷ [];
  temp_len = 4;
}

two_bytes-IsInside : IsInside two_bytes four_bytes
two_bytes-IsInside = record {
  order = omega arith;
  within = omega arith;
  allocated = omega arith;
  small = omega arith;
}

resize_chunk-Faults_example : Faults {G = ℕ} (resize_chunk two_bytes (7 ∷ []) four_bytes)
resize_chunk-Faults_example =
    resize_chunk-Faults {G = ℕ} two_bytes (7 ∷ []) four_bytes two_bytes-IsInside

delete_at_lem_example :
    (four_bytes.temp_len < length four_bytes.out_buf)
      × Ensures {G = ℕ} (IsDeleted two_bytes four_bytes) (delete_at two_bytes four_bytes)
    ⊎ (four_bytes.temp_len ≡ length four_bytes.out_buf)
      × Faults {G = ℕ} (delete_at two_bytes four_bytes)
delete_at_lem_example = delete_at_lem {G = ℕ} two_bytes four_bytes two_bytes-IsInside
