-- ===== src/Windows/Tests/Pasting.antt =====
-- A clipboard of at most two formats, and memory of numbered handles.
use nadikt.Base.{
  ℕ, suc, ◌+◌, Bool, true, false, ◌&&◌, ==_iff, none, some, List, [], ◌∷◌, ◌≡◌, ◌≢◌, refl, arith,
  map, ◌==◌, if◌then◌else◌,
}
use nadikt.Base.Result.{Result, ok, err}
use nadikt.Insertion.Contracts.{ClipboardPreparation, RestoreResult, Raised, exception}
use nadikt.Windows.Utf16.{encode_utf_16_le, is_surrogate}
use nadikt.Windows.Clipboard.Heap.{lookup, update}
use nadikt.Windows.Clipboard.{
  ClipboardItems, ClipboardApi, WindowsClipboardState, StateObject, at, ClipboardState, prepare,
  commit_mutation, restore, call, with_opened, prepare_opened, clone_formats, all_supported,
  is_supported, set_item, commit_encoded, commit_opened, replace_marked, mark, access_error,
  restore_state, restore_opened, replace_or_mark, release_prepared,
}
use nadikt.Windows.Clipboard.Ownership.{Clipboard, restore-Owned}
use nadikt.Windows.Clipboard.Ownership.Commit.{Written}
use nadikt.Windows.Clipboard.Ownership.Reading.{Readable, Distinct, get_item}
use nadikt.Windows.Clipboard.Ownership.Transaction.{prepare-commit_mutation-restore}
use nadikt.Windows.Clipboard.System.{ClipboardSystem, MemoryState, replace_contents, read_format}

-- What is placed: nothing, one format, or a picture of both formats, CF_DIB (8) and CF_DIBV5 (17).
data Placed : Type 0 where
  nothing : Placed
  single : ℕ → List ℕ → Placed
  pictures : (dib dibv5 : List ℕ) → Placed

-- What is placed, and the sequence number.
abbrev Board : Type 0
Board = Placed × ℕ

abbrev items_of : Placed → ClipboardItems
items_of nothing = []
items_of (single format payload) = (format, payload) ∷ []
items_of (pictures dib dibv5) = (8, dib) ∷ (17, dibv5) ∷ []

-- The system makes a CF_DIBV5 of a CF_DIB that stands alone.
abbrev made_of : ClipboardItems → ClipboardItems
made_of [] = []
made_of ((f, p) ∷ []) = elim (f == 8) [ true ↦ (8, p) ∷ (17, p) ∷ [] | false ↦ (f, p) ∷ [] ]
made_of (x ∷ y ∷ items) = x ∷ y ∷ items

abbrev replace : ClipboardItems → Board → Result Raised (Unit {0}) × Board
replace [] w = (ok tt, (nothing, suc w.1))
replace ((f, p) ∷ []) w = (ok tt, (single f p, suc w.1))
replace ((f, p) ∷ (g, q) ∷ []) w = elim (f == 8 && g == 17) [
  | true ↦ (ok tt, (pictures p q, suc w.1))
  | false ↦ (err exception, w)
]
replace (x ∷ y ∷ z ∷ rest) w = (err exception, w)

abbrev board : ClipboardApi
board = record {
  World = Board;
  enter = λ w. (ok tt, w);
  leave = λ w. w;
  sequence_number = λ w. (ok w.1, w);
  list_formats = λ w. (ok (map (λ i. i.0) (made_of (items_of w.0))), w);
  read_format = λ f w. (ok (get_item f (made_of (items_of w.0))), w);
  replace_contents = replace;
  close = none;
}

replaced :
    (items : ClipboardItems) (w : Board)
    → (replace items w).0 ≡ ok tt
    → items_of (replace items w).1.0 ≡ items
replaced [] w e = refl
replaced ((f, p) ∷ []) w e = refl
replaced ((f, p) ∷ (g, q) ∷ []) w e = ground (arith, ==_iff f 8, ==_iff g 17)
replaced (x ∷ y ∷ z ∷ rest) w e = absurd (ground arith)

counted : (w : Board) (n : ℕ) → (board.sequence_number w).0 ≡ ok n → n ≡ w.1
counted w n e = ground arith

abbrev board_laws : Clipboard board
board_laws = record {
  contents = λ w. items_of w.0;
  sequence = λ w. w.1;
  leave-contents = λ w. refl;
  leave-sequence = λ w. refl;
  number-contents = λ w. refl;
  number-sequence = λ w. refl;
  number-value = counted;
  replace-contents = replaced;
}

made_of-made_of : (items : ClipboardItems) → made_of (made_of items) ≡ made_of items
made_of-made_of [] = refl
made_of-made_of ((f, p) ∷ []) = ground arith
made_of-made_of (x ∷ y ∷ items) = refl

made-Distinct :
    (f : ℕ) (p : List ℕ) (makes : Bool)
    → Distinct []
        (elim makes as (λ b. ClipboardItems) [ true ↦ (8, p) ∷ (17, p) ∷ [] | false ↦ (f, p) ∷ [] ])
unfolding get_item
made-Distinct f p true = (refl, (refl, tt))
made-Distinct f p false = (refl, tt)

made_of-Distinct : (placed : Placed) → Distinct [] (made_of (items_of placed))
unfolding get_item
made_of-Distinct nothing = tt
made_of-Distinct (single f p) = made-Distinct f p (f == 8)
made_of-Distinct (pictures p q) = (refl, (refl, tt))

listed :
    (w : Board) (formats : List ℕ)
    → (board.list_formats w).0 ≡ ok formats
    → formats ≡ map (λ i. i.0) (made_of (items_of w.0))
listed w formats e = ground arith

read :
    (f : ℕ) (w : Board) (payload : List ℕ)
    → (board.read_format f w).0 ≡ ok (some payload)
    → get_item f (made_of (items_of w.0)) ≡ some payload
read f w payload e = ground arith

abbrev board_reads : Readable board board_laws
board_reads = record {
  listed = made_of;
  listed-listed = made_of-made_of;
  listed-Distinct = λ w. made_of-Distinct w.0;
  list-contents = λ w. refl;
  list-sequence = λ w. refl;
  list-value = listed;
  read-contents = λ f w. refl;
  read-sequence = λ f w. refl;
  read-value = read;
}

-- The clipboard holds a picture, of which the system makes another format.
abbrev start : ClipboardState Board
start = record { heap = []; prepared_state = none; world = (single 8 (1 ∷ 2 ∷ []), 5) }

abbrev first : Result Raised (ClipboardPreparation StateObject) × ClipboardState Board
first = prepare board start

abbrev second : Result Raised (Unit {0}) × ClipboardState Board
second = commit_mutation board (97 ∷ []) first.1

abbrev third : Result Raised RestoreResult × ClipboardState Board
third = restore board (record { state = at 0 }) second.1

abbrev prepared : ClipboardPreparation StateObject
prepared = record { is_safe = true; snapshot = some (record { state = at 0 }); code = none }

first_eq : first.0 ≡ ok prepared
unfolding prepare with_opened prepare_opened call clone_formats all_supported is_supported set_item
    get_item
first_eq = refl

second_eq : second.0 ≡ ok tt
unfolding prepare with_opened prepare_opened call clone_formats all_supported is_supported set_item
    get_item commit_mutation commit_encoded commit_opened replace_marked mark access_error lookup
    encode_utf_16_le is_surrogate
second_eq = refl

abbrev back : RestoreResult
back = record { restored = true; external_change = false }

third_eq : third.0 ≡ ok back
unfolding prepare with_opened prepare_opened call clone_formats all_supported is_supported set_item
    get_item commit_mutation commit_encoded commit_opened replace_marked mark access_error lookup
    update encode_utf_16_le is_surrogate restore restore_state restore_opened replace_or_mark
    release_prepared
third_eq = refl

prepare-commit_mutation-restore_example :
    (prepared.snapshot ≡ some (record { state = at 0 }))
    × (items_of third.1.world.0 ≡ (8, 1 ∷ 2 ∷ []) ∷ (17, 1 ∷ 2 ∷ []) ∷ [])
    × (made_of (items_of third.1.world.0) ≡ (8, 1 ∷ 2 ∷ []) ∷ (17, 1 ∷ 2 ∷ []) ∷ [])
    × ((encoded : List ℕ) × (encode_utf_16_le (97 ∷ []) ≡ some encoded)
        × (items_of second.1.world.0 ≡ Written encoded))
prepare-commit_mutation-restore_example =
    prepare-commit_mutation-restore board board_laws board_reads (97 ∷ []) prepared back start
      first_eq refl refl second_eq refl third_eq refl

abbrev pasted : WindowsClipboardState
pasted = record {
  original_items = (8, 1 ∷ 2 ∷ []) ∷ [];
  sequence_before_mutation = 5;
  mutation_sequence = some 6;
}

-- Another program has copied a file since.
abbrev overtaken : ClipboardState Board
overtaken = record { heap = pasted ∷ []; prepared_state = some 0; world = (single 15 (7 ∷ []), 7) }

abbrev restored : Result Raised RestoreResult × ClipboardState Board
restored = restore board (record { state = at 0 }) overtaken

known : lookup 0 overtaken.heap ≡ some pasted
unfolding lookup
known = refl

restore-Owned_example :
    (overtaken.world.1 ≢ 6 → items_of restored.1.world.0 ≡ (15, 7 ∷ []) ∷ [])
    × ((result : RestoreResult)
        → restored.0 ≡ ok result
        → result.restored ≡ true
        → (overtaken.world.1 ≡ 6) × (items_of restored.1.world.0 ≡ (8, 1 ∷ 2 ∷ []) ∷ []))
restore-Owned_example = restore-Owned board board_laws 0 6 pasted overtaken known refl refl

-- The world counts the handles; the second one that is set is refused.
abbrev heap_system : ClipboardSystem
heap_system = record {
  World = ℕ;
  open_clipboard = λ window w. (true, w);
  close_clipboard = λ w. w;
  sleep = λ d w. (ok tt, w);
  get_clipboard_sequence_number = λ w. (5, w);
  set_last_error = λ e w. w;
  get_last_error = λ w. 0;
  enum_clipboard_formats = λ f w. (0, w);
  get_clipboard_data = λ f w. (1, w);
  global_size = λ h w. (4, w);
  global_lock = λ h w. (h, w);
  global_unlock = λ h w. w;
  string_at = λ p n w. [];
  empty_clipboard = λ w. (true, w);
  set_clipboard_data = λ f h w. (if h == 102 then 0 else h, w);
  global_alloc = λ n w. (101 + w, w + 1);
  global_free = λ h w. w;
  memmove = λ p bytes w. (ok tt, w);
  create_window = λ w. (3, w);
  destroy_window = λ h w. w;
}

abbrev memory : MemoryState ℕ
memory = record { owner_window = 3; world = 0; log = [] }

abbrev replacing : Result Raised (Unit {0}) × MemoryState ℕ
replacing = replace_contents heap_system ((8, 1 ∷ []) ∷ (15, 2 ∷ []) ∷ []) memory
