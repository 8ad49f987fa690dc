-- ===== src/Queue.antt =====
-- The queue of fuzzer/afl-fuzz.c: add_to_queue() with the `next` and `next_100` links, and the seeks
-- of the splicing stages through them. ck_alloc() gives the n-th entry the address n.
use nfuzzer.Base.{
  ℕ, zero, suc, ◌+◌, ◌-◌, ◌%◌, ◌^◌, ◌==◌, ltb, leb, max, ◌&&◌, ◌||◌, List, if◌then◌else◌, Bool,
  true, false, Option, none, some,
}
use nfuzzer.Score.{update}
use nfuzzer.Tree.{Tree, null}
use nfuzzer.Tree.Copy.{copy_chunks}
pub mod Seek
pub mod Add
mod Tests

-- The links. An address that ck_alloc() returns for an entry is a number; the n-th entry gets n.
pub record Links : Type 0 where
  pub queue : Option ℕ
  pub queue_top : Option ℕ
  pub q_prev100 : Option ℕ
  pub next : ℕ → Option ℕ
  pub next_100 : ℕ → Option ℕ
  pub queued_paths : ℕ

-- `p->link = q`
abbrev pub link : (ℕ → Option ℕ) → Option ℕ → ℕ → ℕ → Option ℕ
link f none q = f
link f (some p) q = update f p (some q)

-- `if (queue_top) … else q_prev100 = queue = queue_top = q`
unfoldable pub append_entry : ℕ → Links → Links
append_entry q l = elim l.queue_top [
  | some top ↦ record l { next = update l.next top (some q); queue_top = some q }
  | none ↦ record l { q_prev100 = some q; queue = some q; queue_top = some q }
]

-- `queued_paths++`, and the marker of each hundredth entry.
unfoldable pub count_entry : ℕ → Links → Links
count_entry q l =
    let n = (l.queued_paths + 1) % 2 ^ 32 in
    if n % 100 == 0
    then record l { queued_paths = n; next_100 = link l.next_100 l.q_prev100 q; q_prev100 = some q }
    else record l { queued_paths = n }

unfoldable pub add_links : Links → Links
add_links l = count_entry l.queued_paths (append_entry l.queued_paths l)

abbrev pub follow : (ℕ → Option ℕ) → Option ℕ → Option ℕ
follow f none = none
follow f (some p) = f p

-- `while (tid >= 100) { target = target->next_100; tid -= 100; }`: the target, and what is left of
-- `tid`. The fuel is `tid`, which falls by 100 in a round.
unfoldable pub skip_hundreds : Links → ℕ → ℕ → Option ℕ → Option ℕ × ℕ
skip_hundreds l zero tid target = (target, tid)
skip_hundreds l (suc fuel) tid target = elim (leb 100 tid) [
  | true ↦ skip_hundreds l fuel (tid - 100) (follow l.next_100 target)
  | false ↦ (target, tid)
]

-- `while (tid--) target = target->next;`
unfoldable pub walk_next : Links → ℕ → Option ℕ → Option ℕ
walk_next l zero target = target
walk_next l (suc tid) target = walk_next l tid (follow l.next target)

-- The entry that a splicing stage reaches for `tid`.
unfoldable pub seek : Links → ℕ → Option ℕ
seek l tid = let (target, rest) = skip_hundreds l tid tid l.queue in walk_next l rest target

-- What add_to_queue() sets in a queue entry. `fname` is the text of the name.
pub record Entry : Type 0 where
  pub fname : List ℕ
  pub len : ℕ
  pub depth : ℕ
  pub passed_det : Bool
  pub validity : ℕ
  pub parsed : Bool
  pub chunk : Tree
  pub cached_chunk : Tree

-- The globals that add_to_queue() works on; `free` is the next address for a chunk.
pub record Queue : Type 0 where
  pub links : Links
  pub entry : ℕ → Entry
  pub smart_mode : Bool
  pub queue_cur : Option ℕ
  pub cur_depth : ℕ
  pub max_depth : ℕ
  pub pending_not_fuzzed : ℕ
  pub cycles_wo_finds : ℕ
  pub last_path_time : ℕ
  pub free : ℕ

-- The chunk tree of the parent, if there is one in smart mode.
unfoldable pub parent_chunk : Queue → Tree
parent_chunk u = elim u.queue_cur [
  | none ↦ null
  | some p ↦ if u.smart_mode then (u.entry p).chunk else null
]

-- `now` is what get_cur_time() returns.
unfoldable pub add_to_queue : List ℕ → ℕ → Bool → ℕ → Queue → Queue
add_to_queue fname len passed_det now u =
    let copy = copy_chunks (parent_chunk u) u.free in
    let cached = copy_chunks (parent_chunk u) copy.free in
    let depth = (u.cur_depth + 1) % 2 ^ 32 in
    record u {
      links = add_links u.links;
      entry = update u.entry u.links.queued_paths (record {
        fname = fname;
        len = len;
        depth = depth;
        passed_det = passed_det;
        validity = 0;
        parsed = false;
        chunk = copy.tree;
        cached_chunk = cached.tree;
      });
      max_depth = max depth u.max_depth;
      pending_not_fuzzed = (u.pending_not_fuzzed + 1) % 2 ^ 32;
      cycles_wo_finds = 0;
      last_path_time = now;
      free = cached.free;
    }

-- `while (target && (target->len < 2 || target == queue_cur)) target = target->next;`, with fuel.
unfoldable pub is_unfit : (ℕ → Entry) → Option ℕ → ℕ → Bool
is_unfit entry none p = ltb (entry p).len 2
is_unfit entry (some cur) p = ltb (entry p).len 2 || p == cur

unfoldable pub skip_unfit : ℕ → Queue → Option ℕ → Option ℕ
skip_unfit fuel u none = none
skip_unfit zero u (some p) = some p
skip_unfit (suc fuel) u (some p) = elim (is_unfit u.entry u.queue_cur p) [
  | true ↦ skip_unfit fuel u (u.links.next p)
  | false ↦ some p
]

-- The entry that is spliced with for the number `tid`.
unfoldable pub splice_target : Queue → ℕ → Option ℕ
splice_target u tid = skip_unfit u.links.queued_paths u (seek u.links tid)
