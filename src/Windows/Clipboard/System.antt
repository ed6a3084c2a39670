-- ===== src/Windows/Clipboard/System.antt =====
-- `CtypesClipboardApi` of windows_clipboard.py. The functions of user32 and kernel32 are a parameter
-- on a world; handles, windows and pointers are numbers, 0 for none. What happens to memory is
-- recorded, the last event first. Only `sleep` and `memmove` may raise.
pub mod Calls
use nadikt.Base.{
  ℕ, zero, suc, Bool, true, false, Option, none, some, List, [], ◌∷◌, ◌++◌, length, ◌==◌,
  if◌then◌else◌, max,
}
use nadikt.Base.Result.{ok, err}
use nadikt.Base.Exec.{Exec, pure, raise, ◌>>=◌, ◌>>◌}
use nadikt.Insertion.Contracts.{Raised, exception, interrupt}
use nadikt.Windows.Clipboard.{ClipboardItems}
pub use Calls.{
  ClipboardSystem, MemoryEvent, allocated, freed, given, torn, locked, unlocked, MemoryState,
  Handles,
}

module _ (sys : ClipboardSystem) where
  abbrev pub M : Type 0 → Type 0
  M R = Exec Raised (MemoryState sys.World) R

  unfoldable pub ask : {R : Type 0} → (sys.World → R × sys.World) → M R
  ask op s = let (a, w) = op s.world in (ok a, record s { world = w })

  unfoldable pub tell : (sys.World → sys.World) → M (Unit {0})
  tell op s = (ok tt, record s { world = op s.world })

  unfoldable pub note : MemoryEvent → M (Unit {0})
  note event s = (ok tt, record s { log = event ∷ s.log })

  -- `__init__` from the owner window on.
  unfoldable pub new_clipboard_api : Exec Raised sys.World (MemoryState sys.World)
  new_clipboard_api w =
      let (window, w') = sys.create_window w in
      elim (window == 0) [
        | true ↦ (err exception, w')
        | false ↦ (ok (record { owner_window = window; world = w'; log = [] }), w')
      ]

  unfoldable pub sequence_number : M ℕ
  unfolding ask
  sequence_number = ask sys.get_clipboard_sequence_number

  -- The loop of `opened`, for so many attempts left.
  unfoldable pub open_attempts : (attempts delay : ℕ) → M (Unit {0})
  open_attempts zero delay s = (err exception, s)
  open_attempts (suc attempts) delay s =
      let (opened, w) = sys.open_clipboard s.owner_window s.world in
      elim opened [
        | true ↦ (ok tt, record s { world = w })
        | false ↦ elim attempts [
          | zero ↦ (err exception, record s { world = w })
          | suc n ↦
              let (r, w') = sys.sleep delay w in
              elim r [
                | err e ↦ (err e, record s { world = w' })
                | ok done ↦ open_attempts attempts delay (record s { world = w' })
              ]
        ]
      ]

  -- `with opened(): body`; `lock_attempts` is at least 1.
  unfoldable pub opened : {R : Type 0} → (lock_attempts delay : ℕ) → M R → M R
  unfolding open_attempts
  opened lock_attempts delay body = do
    open_attempts (max 1 lock_attempts) delay
    (λ s. let (r, s') = body s in (r, record s' { world = sys.close_clipboard s'.world }))

  unfoldable pub close : M (Unit {0})
  close s = (
    ok tt,
    if s.owner_window == 0
        then s
        else record s { owner_window = 0; world = sys.destroy_window s.owner_window s.world },
  )

  -- The loop of `list_formats`; nothing where the fuel does not last.
  unfoldable pub list_from : (fuel current : ℕ) → M (Option (List ℕ))
  unfolding ask
  list_from zero current s = (ok none, s)
  list_from (suc fuel) current s =
      let (next, w) = sys.enum_clipboard_formats current s.world in
      let s' = record s { world = w } in
      elim (next == 0) [
        | true ↦ (if sys.get_last_error w == 0 then ok (some []) else err exception, s')
        | false ↦
            let (r, s'') = list_from fuel next s' in
            elim r [
              | err e ↦ (err e, s'')
              | ok none ↦ (ok none, s'')
              | ok (some formats) ↦ (ok (some (next ∷ formats)), s'')
            ]
      ]

  unfoldable pub list_formats : (fuel : ℕ) → M (Option (List ℕ))
  unfolding tell list_from
  list_formats fuel = tell (sys.set_last_error 0) >> list_from fuel 0

  unfoldable pub global_lock : ℕ → M ℕ
  unfolding ask note
  global_lock handle = do
    pointer ← ask (sys.global_lock handle)
    (elim (pointer == 0) [ true ↦ pure pointer | false ↦ (note (locked handle) >> pure pointer) ])

  unfoldable pub global_unlock : ℕ → M (Unit {0})
  unfolding tell note
  global_unlock handle = tell (sys.global_unlock handle) >> note (unlocked handle)

  unfoldable pub global_free : ℕ → M (Unit {0})
  unfolding tell note
  global_free handle = tell (sys.global_free handle) >> note (freed handle)

  -- `read_format` from the lock on.
  unfoldable pub read_locked : (handle size : ℕ) → M (Option (List ℕ))
  unfolding global_lock global_unlock
  read_locked handle size = do
    pointer ← global_lock handle
    (elim (pointer == 0) [
      | true ↦ pure none
      | false ↦ λ s.
          let payload = sys.string_at pointer size s.world in
          (ok (some payload), (global_unlock handle s).1)
    ])

  unfoldable pub read_format : ℕ → M (Option (List ℕ))
  unfolding ask read_locked
  read_format format = do
    handle ← ask (sys.get_clipboard_data format)
    (elim (handle == 0) [
      | true ↦ pure none
      | false ↦ do
        size ← ask (sys.global_size handle)
        (elim (size == 0) [ true ↦ pure none | false ↦ read_locked handle size ])
    ])

  -- `_allocate_bytes` for a handle.
  unfoldable pub fill : (handle : ℕ) → List ℕ → M ℕ
  unfolding global_lock global_unlock global_free note
  fill handle payload = do
    pointer ← global_lock handle
    (elim (pointer == 0) [
      | true ↦ (global_free handle >> raise exception)
      | false ↦ λ s.
          let (r, w) = sys.memmove pointer payload s.world in
          let s' = (global_unlock handle (record s { world = w })).1 in
          elim r [ ok moved ↦ (ok handle, s') | err e ↦ (err e, (note (torn handle) s').1) ]
    ])

  unfoldable pub allocate_bytes : List ℕ → M ℕ
  unfolding ask note fill
  allocate_bytes payload = do
    handle ← ask (sys.global_alloc (length payload))
    (elim (handle == 0) [
      | true ↦ raise exception
      | false ↦ (note (allocated handle) >> fill handle payload)
    ])

  -- `for handle in handles.values(): GlobalFree(handle)`
  unfoldable pub free_all : Handles → M (Unit {0})
  unfolding global_free
  free_all [] = pure tt
  free_all ((format, handle) ∷ handles) = global_free handle >> free_all handles

  -- `_allocate_all`, the first handles being allocated already. The keys of a dict are different,
  -- so each assignment adds an entry.
  unfoldable pub allocate_all : ClipboardItems → Handles → M Handles
  unfolding allocate_bytes free_all
  allocate_all [] handles s = (ok handles, s)
  allocate_all ((format, payload) ∷ items) handles s =
      let (r, s') = allocate_bytes payload s in
      elim r [
        | ok handle ↦ allocate_all items (handles ++ (format, handle) ∷ []) s'
        | err exception ↦ (free_all handles >> raise exception) s'
        | err interrupt ↦ (err interrupt, s')
      ]

  -- The loop over the handles: whether each was taken, and those that are not set to `None`.
  unfoldable pub place_all : Handles → M (Bool × Handles)
  unfolding ask note
  place_all [] = pure (true, [])
  place_all ((format, handle) ∷ handles) = do
    taken ← ask (sys.set_clipboard_data format handle)
    (elim (taken == 0) [
      | true ↦ pure (false, (format, handle) ∷ handles)
      | false ↦ (note (given handle) >> place_all handles)
    ])

  -- The `try` of `replace_contents`.
  unfoldable pub place : Handles → M (Bool × Handles)
  unfolding ask place_all
  place handles = do
    emptied ← ask sys.empty_clipboard
    (elim emptied [ true ↦ place_all handles | false ↦ pure (false, handles) ])

  -- The loop of `replace_contents`, for so many attempts left.
  unfoldable pub replace_attempts : (attempts : ℕ) → ClipboardItems → M (Unit {0})
  unfolding allocate_all place free_all
  replace_attempts zero items = raise exception
  replace_attempts (suc attempts) items = do
    handles ← allocate_all items []
    result ← place handles
    (elim result.0 [
      | true ↦ pure tt
      | false ↦ (free_all result.1 >> replace_attempts attempts items)
    ])

  unfoldable pub replace_contents : ClipboardItems → M (Unit {0})
  unfolding replace_attempts
  replace_contents items = replace_attempts 2 items
