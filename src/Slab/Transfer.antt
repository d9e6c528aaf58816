-- ===== src/Slab/Transfer.antt =====
-- The transfer lists of a CPU: `transfer_push_batch`, `transfer_push_single`, `transfer_pop_single` and
-- `transfer_pop_batch`.
use rsmalloc.Common.{ℕ, ◌+◌, true, Option, none, some, List, [], ◌∷◌, ◌++◌, ltb, if◌then◌else◌}
use rsmalloc.Slab.{ClassCache, is_null, set_hint, set_mail, clear_hint}

-- `transfer_push_batch`, with the blocks from `start` to `tail`
unfoldable pub transfer_push_batch : ClassCache → (cpu_id : ℕ) → List ℕ → ClassCache
transfer_push_batch s cpu_id blocks =
    let mail = (s.cpu cpu_id).mail in
    let pushed = set_mail s cpu_id (record mail { list = blocks ++ mail.list }) in
    if is_null mail.list then set_hint pushed cpu_id true else pushed

-- `transfer_push_single`, and `transfer_push_single_trimmed`
unfoldable pub transfer_push_single : ClassCache → (cpu_id header : ℕ) → ClassCache
transfer_push_single s cpu_id header =
    let mail = (s.cpu cpu_id).mail in
    let pushed = set_mail s cpu_id (record mail { list = header ∷ mail.list }) in
    if is_null mail.list then set_hint pushed cpu_id true else pushed

unfoldable pub transfer_push_single_trimmed : ClassCache → (cpu_id header : ℕ) → ClassCache
transfer_push_single_trimmed s cpu_id header =
    let mail = (s.cpu cpu_id).mail in
    let pushed = set_mail s cpu_id (record mail { trimmed = header ∷ mail.trimmed }) in
    if is_null mail.trimmed then set_hint pushed cpu_id true else pushed

-- `transfer_pop_single`, on the lists as they are
abbrev pub pop_single : ClassCache → (cpu_id : ℕ) → (list trimmed : List ℕ) → Option ℕ × ClassCache
pop_single s cpu_id (head ∷ next) trimmed =
    (some head, set_mail s cpu_id (record { list = next; trimmed = trimmed }))
pop_single s cpu_id [] (head ∷ next) =
    (some head, set_mail s cpu_id (record { list = []; trimmed = next }))
pop_single s cpu_id [] [] = (none, clear_hint s cpu_id)

unfoldable pub transfer_pop_single : ClassCache → (cpu_id : ℕ) → Option ℕ × ClassCache
transfer_pop_single s cpu_id =
    let mail = (s.cpu cpu_id).mail in pop_single s cpu_id mail.list mail.trimmed

-- The loop of `transfer_pop_batch` over the links: the blocks up to `tail`, and the rest.
unfoldable pub walk : (batch_size count : ℕ) → List ℕ → List ℕ × List ℕ
walk batch_size count [] = ([], [])
walk batch_size count (next ∷ rest) =
    let (taken, left) = walk batch_size (count + 1) rest in
    if ltb count batch_size then (next ∷ taken, left) else ([], next ∷ rest)

abbrev pub clear_if_null : ClassCache → (cpu_id : ℕ) → List ℕ → ClassCache
clear_if_null s cpu_id left = if is_null left then clear_hint s cpu_id else s

-- `transfer_pop_batch`, on the lists as they are: the blocks from `head` to `tail`
abbrev pub pop_batch :
    ClassCache → (cpu_id batch_size : ℕ) → (list trimmed : List ℕ) → Option (List ℕ) × ClassCache
pop_batch s cpu_id batch_size (head ∷ next) trimmed =
    let (taken, left) = walk batch_size 1 next in
    (
      some (head ∷ taken),
      clear_if_null (set_mail s cpu_id (record { list = left; trimmed = trimmed })) cpu_id left,
    )
pop_batch s cpu_id batch_size [] (head ∷ next) =
    let (taken, left) = walk batch_size 1 next in
    (
      some (head ∷ taken),
      clear_if_null (set_mail s cpu_id (record { list = []; trimmed = left })) cpu_id left,
    )
pop_batch s cpu_id batch_size [] [] = (none, clear_hint s cpu_id)

unfoldable pub transfer_pop_batch :
    ClassCache → (cpu_id batch_size : ℕ) → Option (List ℕ) × ClassCache
transfer_pop_batch s cpu_id batch_size =
    let mail = (s.cpu cpu_id).mail in pop_batch s cpu_id batch_size mail.list mail.trimmed
