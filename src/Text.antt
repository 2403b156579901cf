-- ===== src/Text.antt =====
-- The text rules of internal/store: taskText (tasks.go), the task id pattern (tasks.go,
-- taskprefix.go) and the document name pattern (docs.go). `refuses` stands for the secret scan
-- `redact.ScanAuthored`: whether it names a high-confidence secret.
pub mod Utf8
use Utf8.{runes, is_control, is_space}
use aimem.Prelude.{
  ℕ, ◌≡◌, refl, Bool, true, false, not, ◌&&◌, ◌||◌, List, [], ◌∷◌, ◌++◌, Option, none, some, Bytes,
  bytes, leb, ltb, ◌==◌, if◌then◌else◌, length, all,
}

pub data TextError : Type 0 where
  not_utf8 too_long blank control_character bidi_override secret : TextError

abbrev is_bidi : ℕ → Bool
is_bidi r = (leb 0x202A r && leb r 0x202E) || (leb 0x2066 r && leb r 0x2069)

scan_runes : List ℕ → Option TextError
scan_runes [] = none
scan_runes (r ∷ rs) =
    let rest = scan_runes rs in
    if is_control r && not (r == 0x0A) && not (r == 0x0D) && not (r == 0x09)
    then some control_character
    else if is_bidi r
    then some bidi_override
    else rest

-- taskText: the first rule that `s` breaks, or none.
unfoldable pub task_text : (Bytes → Bool) → Bytes → ℕ → Bool → Option TextError
unfolding scan_runes runes is_control is_space
task_text refuses s max required = elim (runes s) [
  | none ↦ some not_utf8
  | some rs ↦
      if ltb max (length s)
      then some too_long
      else if required && all is_space rs
      then some blank
      else elim (scan_runes rs) [ some e ↦ some e | none ↦ if refuses s then some secret else none ]
]

-- The characters that an id position takes.
pub data IdClass : Type 0 where
  hex_digit dash version variant : IdClass

unfoldable pub in_class : IdClass → ℕ → Bool
in_class hex_digit c = (leb b'0' c && leb c b'9') || (leb b'a' c && leb c b'f')
in_class dash c = c == b'-'
in_class version c = c == b'7'
in_class variant c = c == b'8' || c == b'9' || c == b'a' || c == b'b'

abbrev hex_run : ℕ → List IdClass → List IdClass
hex_run ℕ.zero rest = rest
hex_run (ℕ.suc n) rest = hex_digit ∷ hex_run n rest

-- taskIDRE, position by position; also the reading of taskIDLayout.
abbrev pub task_id_layout : List IdClass
task_id_layout = hex_run 8 (
    dash
    ∷ hex_run 4 (dash ∷ version ∷ hex_run 3 (dash ∷ variant ∷ hex_run 3 (dash ∷ hex_run 12 []))))

unfoldable pub matches : List IdClass → Bytes → Bool
unfolding in_class
matches [] [] = true
matches (k ∷ ks) (c ∷ s) = in_class k c && matches ks s
matches _ _ = false

-- taskIDRE.MatchString, FullTaskID.
unfoldable pub full_task_id : Bytes → Bool
unfolding matches
full_task_id s = matches task_id_layout s

alnum : ℕ → Bool
alnum c = (leb b'A' c && leb c b'Z') || (leb b'a' c && leb c b'z') || (leb b'0' c && leb c b'9')

name_char : ℕ → Bool
unfolding alnum
name_char c = alnum c || c == b'.' || c == b'_' || c == b'-'

-- docNameRe and recordSegRe: a letter or digit, then at most 63 name characters.
unfoldable pub doc_name : Bytes → Bool
unfolding name_char
doc_name [] = false
doc_name (c ∷ s) = alnum c && all name_char s && leb (length s) 63

sample_id : full_task_id (bytes "01a17718-4ca9-7abc-9def-0123456789ab") ≡ true
unfolding full_task_id
sample_id = refl

clean : task_text (λ s. false) (bytes "Fix the merge") 256 true ≡ none
unfolding task_text
clean = refl

spaces_only : task_text (λ s. false) (bytes "  ") 256 true ≡ some blank
unfolding task_text
spaces_only = refl
