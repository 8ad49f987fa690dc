-- ===== src/Queue/Tests.antt =====
-- A queue of two entries.
use nfuzzer.Base.{ℕ, ◌+◌, ◌^◌, some, ◌<◌, arith, true, false, refl, none, [], ◌∷◌}
use nfuzzer.Tree.{Fields, null, chunk}
use nfuzzer.Queue.{
  Links, Entry, Queue, add_to_queue, add_links, count_entry, append_entry, splice_target,
}
use nfuzzer.Queue.Seek.{IsLinked}
use nfuzzer.Queue.Add.{IsFirstFit, IsAdded, splice_target-IsFirstFit, add_to_queue-IsAdded}

abbrev no_links : Links
no_links = record {
  queue = none;
  queue_top = none;
  q_prev100 = none;
  next = λ _. none;
  next_100 = λ _. none;
  queued_paths = 0;
}

no_links-IsLinked : IsLinked no_links
no_links-IsLinked = record {
  head = refl;
  top = refl;
  marker = refl;
  nexts = λ k h. absurd (omega arith);
  ends = λ k h. refl;
  first_jump = λ h. absurd (omega arith);
  jumps = λ j h. absurd (omega arith);
}

abbrev no_entry : Entry
no_entry = record {
  fname = [];
  len = 0;
  depth = 0;
  passed_det = false;
  validity = 0;
  parsed = false;
  chunk = null;
  cached_chunk = null;
}

abbrev empty_queue : Queue
empty_queue = record {
  links = no_links;
  entry = λ _. no_entry;
  smart_mode = true;
  queue_cur = none;
  cur_depth = 0;
  max_depth = 0;
  pending_not_fuzzed = 0;
  cycles_wo_finds = 0;
  last_path_time = 0;
  free = 0;
}

abbrev one_entry : Queue
one_entry = add_to_queue (97 ∷ []) 5 false 100 empty_queue

one_entry-IsLinked : IsLinked one_entry.links
one_entry-IsLinked =
    (add_to_queue-IsAdded (97 ∷ []) 5 false 100 empty_queue (omega arith) no_links-IsLinked).linked

-- The first entry, being fuzzed, has a tree of two chunks.
abbrev part : ℕ → ℕ → ℕ → Fields
part p first last = record {
  address = p;
  id = p;
  type = 7;
  start_byte = first;
  end_byte = last;
  modifiable = true;
}

abbrev fuzzed : Queue
fuzzed = record one_entry {
  entry = λ _. record no_entry {
    len = 5;
    chunk = chunk (part 1 0 4) null (chunk (part 2 1 2) null null);
  };
  queue_cur = some 0;
  free = 3;
}

one_more : fuzzed.links.queued_paths + 1 < 2 ^ 32
unfolding add_to_queue add_links count_entry append_entry
one_more = omega arith

add_to_queue-IsAdded_example :
    IsAdded (98 ∷ []) 6 false fuzzed (add_to_queue (98 ∷ []) 6 false 101 fuzzed)
add_to_queue-IsAdded_example =
    add_to_queue-IsAdded (98 ∷ []) 6 false 101 fuzzed one_more one_entry-IsLinked

one_path : 0 < one_entry.links.queued_paths
unfolding add_to_queue add_links count_entry append_entry
one_path = omega arith

splice_target-IsFirstFit_example : IsFirstFit one_entry 0 (splice_target one_entry 0)
splice_target-IsFirstFit_example = splice_target-IsFirstFit one_entry one_entry-IsLinked 0 one_path
