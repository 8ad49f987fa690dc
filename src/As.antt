-- ===== src/As.antt =====
-- add_instrumentation() of fuzzer/afl-as.c, for systems other than Apple's: an assembly file is
-- copied, with a trampoline at the branches and labels of its text sections. A line is what one
-- fgets() returns, as bytes. isalpha() and isdigit() of the C library are parameters. Which text a
-- trampoline or the payload has is left out; a trampoline shows the number that it is printed with.
use Prim.Native.String.{String}
use Prim.Native.Char.{code}
use nfuzzer.Base.{
  ℕ, zero, suc, ◌+◌, ◌%◌, ◌^◌, Bool, true, false, not, ltb, ◌&&◌, ◌||◌, ◌==◌, if◌then◌else◌, List,
  [], ◌∷◌, ◌++◌, get_or, drop,
}
use nfuzzer.Config.{map_size}
use nfuzzer.Havoc.Blocks.{ur}
mod Emits
mod Quiet
pub mod Placed
mod Tests

abbrev pub codes : String → List ℕ
codes String.[] = []
codes (String.◌∷◌ c s) = code c ∷ codes s

-- `!strncmp(line, prefix, strlen(prefix))`
unfoldable pub starts_with : List ℕ → List ℕ → Bool
starts_with line [] = true
starts_with [] (p ∷ ps) = false
starts_with (x ∷ line) (p ∷ ps) = x == p && starts_with line ps

-- strstr
unfoldable pub contains : List ℕ → List ℕ → Bool
contains [] pattern = starts_with [] pattern
contains (x ∷ line) pattern = starts_with (x ∷ line) pattern || contains line pattern

-- The options of the run, and the C library's tests of characters.
pub record Options : Type 0 where
  pub pass_thru : Bool
  pub use_64bit : Bool
  pub clang_mode : Bool
  pub inst_ratio : ℕ
  pub pow2 : ℕ
  pub isalpha : ℕ → Bool
  pub isdigit : ℕ → Bool

pub record Flags : Type 0 where
  pub instr_ok : Bool
  pub skip_csect : Bool
  pub skip_next_label : Bool
  pub skip_intel : Bool
  pub skip_app : Bool
  pub instrument_next : Bool
  pub ins_lines : ℕ

-- What is written: a line of the input, a trampoline with its random number, or the payload.
pub data Item : Type 0 where
  source : List ℕ → Item
  trampoline : ℕ → Item
  payload : Item

-- The flags, what random() works on, and the items after a line.
pub record Written (G : Type 0) : Type 0 where
  pub flags : Flags
  pub world : G
  pub items : List Item

abbrev pub byte : List ℕ → ℕ → ℕ
byte line i = get_or line i 0

-- `line[0] == '\t' && isalpha(line[1])`
unfoldable pub is_instruction : Options → List ℕ → Bool
is_instruction o line = byte line 0 == 9 && o.isalpha (byte line 1)

-- `^\tj`, but not `jm…`
unfoldable pub is_branch : List ℕ → Bool
is_branch line = byte line 0 == 9 && byte line 1 == b'j' && not (byte line 2 == b'm')

unfoldable pub is_directive : List ℕ → Bool
is_directive line = byte line 0 == 9 && byte line 1 == b'.'

unfoldable pub opens_text : List ℕ → Bool
opens_text line =
    is_directive line
    && (starts_with (drop 2 line) (codes "text" ++ (10 ∷ []))
        || starts_with (drop 2 line) (codes "section" ++ (9 ∷ codes ".text"))
        || starts_with (drop 2 line) (codes "section" ++ (9 ∷ codes "__TEXT,__text"))
        || starts_with (drop 2 line) (codes "section __TEXT,__text"))

unfoldable pub opens_other : List ℕ → Bool
opens_other line =
    is_directive line
    && (starts_with (drop 2 line) (codes "section" ++ (9 ∷ []))
        || starts_with (drop 2 line) (codes "section ")
        || starts_with (drop 2 line) (codes "bss" ++ (10 ∷ []))
        || starts_with (drop 2 line) (codes "data" ++ (10 ∷ [])))

-- The p2align directives around the jump tables of OpenBSD.
unfoldable pub is_jump_table : Options → Flags → List ℕ → Bool
is_jump_table o f line =
    is_directive line
    && not o.clang_mode
    && f.instr_ok
    && starts_with (drop 2 line) (codes "p2align ")
    && o.isdigit (byte line 10)
    && byte line 11 == 10

-- `if (strstr(line, pattern)) flag = value;`
abbrev pub on_match : List ℕ → String → Bool → Bool → Bool
on_match line pattern value flag = if contains line (codes pattern) then value else flag

-- The directives for code size and syntax, and the marks of __asm__ blocks.
unfoldable pub note_modes : Options → List ℕ → Flags → Flags
note_modes o line f =
    let sized =
      on_match line ".code64" (not o.use_64bit)
        (on_match line ".code32" o.use_64bit f.skip_csect) in
    let hash = byte line 0 == b'#' || byte line 1 == b'#' in
    record f {
      skip_csect = if contains line (codes ".code") then sized else f.skip_csect;
      skip_intel =
          on_match line ".att_syntax" false (on_match line ".intel_syntax" true f.skip_intel);
      skip_app =
          if hash
          then on_match line "#NO_APP" false (on_match line "#APP" true f.skip_app)
          else f.skip_app;
    }

-- `.L0:` and, for clang, `.LBB0_0:`
unfoldable pub is_branch_label : Options → List ℕ → Bool
is_branch_label o line =
    o.isdigit (byte line 2) || o.clang_mode && starts_with (drop 1 line) (codes "LBB")

-- `if (!skip_next_label) instrument_next = 1; else skip_next_label = 0;`
unfoldable pub take_label : Flags → Flags
take_label f =
    if f.skip_next_label
    then record f { skip_next_label = false }
    else record f { instrument_next = true }

module _ {G : Type 0} (random : G → ℕ × G) (o : Options) where
  -- `fprintf(outf, trampoline_fmt, R(MAP_SIZE)); ins_lines++;`
  unfoldable pub put_trampoline : Flags → G → Written G
  put_trampoline f g =
      let (r, g') = random g in
      record {
        flags = record f { ins_lines = (f.ins_lines + 1) % 2 ^ 32 };
        world = g';
        items = trampoline (ur r (map_size o.pow2)) ∷ [];
      }

  -- The deferred trampoline, before an instruction.
  unfoldable pub before_line : List ℕ → Flags → G → Written G
  before_line line f g =
      if not o.pass_thru
        && not f.skip_intel
        && not f.skip_app
        && not f.skip_csect
        && f.instr_ok
        && f.instrument_next
        && is_instruction o line
      then put_trampoline (record f { instrument_next = false }) g
      else record { flags = f; world = g; items = [] }

  -- A conditional branch: with a probability of `inst_ratio` percent.
  unfoldable pub after_branch : List ℕ → Flags → G → Written G
  after_branch line f g =
      let (r, g') = random g in
      if is_branch line
      then (if ltb (ur r 100) o.inst_ratio
          then put_trampoline f g'
          else record { flags = f; world = g'; items = [] })
      else record { flags = f; world = g; items = [] }

  -- A label: one of a branch with a probability, one of a function always.
  unfoldable pub after_label : List ℕ → Flags → G → Written G
  after_label line f g =
      let (r, g') = random g in
      if contains line (codes ":")
      then (if byte line 0 == b'.'
          then (if is_branch_label o line
              then record {
                flags = if ltb (ur r 100) o.inst_ratio then take_label f else f;
                world = g';
                items = [];
              }
              else record { flags = f; world = g; items = [] })
          else record { flags = record f { instrument_next = true }; world = g; items = [] })
      else record { flags = f; world = g; items = [] }

  -- Where code is instrumented: in AT&T syntax, outside __asm__ blocks, in a text section.
  unfoldable pub in_mood : Flags → List ℕ → G → Written G
  in_mood f line g =
      if f.skip_intel
        || f.skip_app
        || f.skip_csect
        || not f.instr_ok
        || byte line 0 == b'#'
        || byte line 0 == b' '
      then record { flags = f; world = g; items = [] }
      else (if byte line 0 == 9 then after_branch line f g else after_label line f g)

  -- What follows the line itself.
  unfoldable pub after_line : List ℕ → Flags → G → Written G
  after_line line f g =
      let f' = if is_jump_table o f line then record f { skip_next_label = true } else f in
      if o.pass_thru
      then record { flags = f; world = g; items = [] }
      else (if opens_text line
          then record { flags = record f' { instr_ok = true }; world = g; items = [] }
          else (if opens_other line
              then record { flags = record f' { instr_ok = false }; world = g; items = [] }
              else in_mood (note_modes o line f') line g))

  -- The loop over the lines.
  unfoldable pub copy_lines : List (List ℕ) → Flags → G → Written G
  copy_lines [] f g = record { flags = f; world = g; items = [] }
  copy_lines (line ∷ lines) f g =
      let before = before_line line f g in
      let after = after_line line before.flags before.world in
      let rest = copy_lines lines after.flags after.world in
      record rest { items = before.items ++ (source line ∷ (after.items ++ rest.items)) }

  unfoldable pub start_flags : Flags
  start_flags = record {
    instr_ok = false;
    skip_csect = false;
    skip_next_label = false;
    skip_intel = false;
    skip_app = false;
    instrument_next = false;
    ins_lines = 0;
  }

  unfoldable pub add_instrumentation : List (List ℕ) → G → List Item
  add_instrumentation lines g =
      let done = copy_lines lines start_flags g in
      if done.flags.ins_lines == 0 then done.items else done.items ++ (payload ∷ [])
