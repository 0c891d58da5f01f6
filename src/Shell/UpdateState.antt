-- ===== src/Shell/UpdateState.antt =====
-- src/shell/update_state.hpp and src/shell/update_state.cpp: the file in which a script says how far
-- an update has come, read by the daemon and shown in a dialog.
pub mod Fields
pub mod Shown
pub mod Half
use sshos.Base.{
  ℕ, zero, suc, ◌+◌, ◌-◌, ◌*◌, ◌/◌, ◌%◌, ◌^◌, Bool, true, false, not, ◌&&◌, ◌||◌, Option, none,
  some, List, [], ◌∷◌, ◌++◌, Bytes, length, take, drop, ltb, leb, ◌==◌, if◌then◌else◌,
}
use sshos.Base.Int.{ℤ, pos, negsuc, pos_part, ◌-ℤ◌, leb_ℤ, ==_ℤ}
use sshos.Base.Text.{codes, ==_Bytes, strip_front, strip_back, filter, split_at_equals, lines_of}

pub data UpdateStatus : Type 0 where
  idle : UpdateStatus
  checking : UpdateStatus
  applying : UpdateStatus
  up_to_date : UpdateStatus
  available : UpdateStatus
  restart_is_pending : UpdateStatus
  check_failed : UpdateStatus
  apply_failed : UpdateStatus
  history_rewritten : UpdateStatus
  updates_disabled : UpdateStatus

pub record UpdateState : Type 0 where
  status : UpdateStatus
  pub prefix : Bytes
  pub source : Bytes
  pub installed_commit : Bytes
  pub previous_commit : Bytes
  pub remote_commit : Bytes
  pub installed_version : Bytes
  pub remote_version : Bytes
  pub commits_ahead : ℤ
  pub checked_at : ℤ
  pub pid : ℤ
  pub stage : Bytes
  pub progress : ℤ
  pub message : Bytes
  pub restart_pending : Bool
  pub notes : List Bytes

abbrev pub new_state : UpdateState
new_state = record {
  status = idle;
  prefix = [];
  source = [];
  installed_commit = [];
  previous_commit = [];
  remote_commit = [];
  installed_version = [];
  remote_version = [];
  commits_ahead = pos 0;
  checked_at = pos 0;
  pid = negsuc 0;
  stage = [];
  progress = negsuc 0;
  message = [];
  restart_pending = false;
  notes = [];
}

abbrev pub max_state_bytes : ℕ
max_state_bytes = 4096

abbrev pub max_state_message_bytes : ℕ
max_state_message_bytes = 200

abbrev pub update_state_schema : ℕ
update_state_schema = 1

abbrev pub max_update_notes : ℕ
max_update_notes = 6

abbrev pub max_update_note_chars : ℕ
max_update_note_chars = 76

abbrev pub is_space : ℕ → Bool
is_space c = c == b' ' || c == 0x09 || c == 0x0D

abbrev pub trim : Bytes → Bytes
trim s = strip_back is_space (strip_front is_space s)

abbrev pub is_digit : ℕ → Bool
is_digit c = leb b'0' c && leb c b'9'

abbrev pub max_int64 : ℕ
max_int64 = 2 ^ 63 - 1

-- The digits of a number that starts with `v`.
unfoldable pub read_digits : ℕ → Bytes → Option ℕ
read_digits v [] = some v
read_digits v (c ∷ cs) =
    let d = c - b'0' in
    let rest = read_digits (v * 10 + d) cs in
    if not (is_digit c) || ltb ((max_int64 - d) / 10) v then none else rest

abbrev pub signed : Bool → Option ℕ → Option ℤ
signed negative none = none
signed negative (some v) = some (if negative then pos 0 -ℤ pos v else pos v)

unfoldable pub read_int64 : Bytes → Option ℤ
read_int64 [] = none
read_int64 (c ∷ []) = signed false (read_digits 0 (c ∷ []))
read_int64 (c ∷ d ∷ cs) =
    if c == b'-' || c == b'+'
    then signed (c == b'-') (read_digits 0 (d ∷ cs))
    else signed false (read_digits 0 (c ∷ d ∷ cs))

unfoldable pub is_version : Bytes → Bool
is_version [] = true
is_version (c ∷ cs) = (is_digit c || c == b'.') && is_version cs

unfoldable pub clean_version : Bytes → Bytes
clean_version s = if ltb 12 (length s) || not (is_version s) then [] else s

abbrev pub status_table : List (Bytes × UpdateStatus)
status_table =
    (codes "idle", idle)
    ∷ (codes "checking", checking)
    ∷ (codes "applying", applying)
    ∷ (codes "up-to-date", up_to_date)
    ∷ (codes "available", available)
    ∷ (codes "restart-pending", restart_is_pending)
    ∷ (codes "check-failed", check_failed)
    ∷ (codes "apply-failed", apply_failed)
    ∷ (codes "history-rewritten", history_rewritten)
    ∷ (codes "updates-disabled", updates_disabled)
    ∷ []

unfoldable pub status_in : List (Bytes × UpdateStatus) → Bytes → Option UpdateStatus
status_in [] s = none
status_in ((name, status) ∷ rows) s =
    let rest = status_in rows s in if ==_Bytes name s then some status else rest

abbrev pub read_status : Bytes → Option UpdateStatus
read_status s = status_in status_table s

abbrev pub is_shown : ℕ → Bool
is_shown u = leb 0x20 u && not (u == 0x7F)

-- `(u & 0xc0) == 0x80`, of a byte.
abbrev pub is_continuation : ℕ → Bool
is_continuation u = u / 64 == 2

unfoldable pub clean_note : Bytes → Bytes
clean_note v =
    let out = filter is_shown v in
    if ltb max_update_note_chars (length out)
    then strip_back is_continuation (take max_update_note_chars out)
    else out

-- The digits of an index that starts with `n`.
unfoldable pub index_digits : ℕ → Bytes → ℕ
index_digits n [] = n
index_digits n (c ∷ cs) =
    let m = n * 10 + (c - b'0') in
    let rest = index_digits m cs in if not (is_digit c) || ltb 10000 m then 0 else rest

unfoldable pub note_index : Bytes → ℕ
note_index key =
    if leb (length key) 5 || not (==_Bytes (take 5 key) (codes "note_"))
    then 0
    else index_digits 0 (drop 5 key)

-- `std::find` in the keys that have been seen.
unfoldable pub is_seen : Bytes → List Bytes → Bool
is_seen key [] = false
is_seen key (k ∷ seen) = ==_Bytes k key || is_seen key seen

-- The variables of the loop of `parse_update_state`.
pub record Reading : Type 0 where
  pub seen : List Bytes
  pub schema_ok : Bool
  pub saw_restart_pending : Bool
  pub parsed : UpdateState
  pub noted : List (ℕ × Bytes)

abbrev pub fresh : Reading
fresh = record {
  seen = [];
  schema_ok = false;
  saw_restart_pending = false;
  parsed = new_state;
  noted = [];
}

-- An integer that is read, and fits, is taken.
abbrev pub within : ℤ → ℤ → Option ℤ → (ℤ → UpdateState) → UpdateState → UpdateState
within lo hi none f u = u
within lo hi (some v) f u = if leb_ℤ lo v && leb_ℤ v hi then f v else u

abbrev pub is_schema : Option ℤ → Bool
is_schema none = false
is_schema (some v) = ==_ℤ v (pos update_state_schema)

abbrev pub with_status : Option UpdateStatus → UpdateState → UpdateState
with_status none u = u
with_status (some status) u = record u { status = status }

-- `static_cast<pid_t>` of a positive number: 32 bits, with a sign.
abbrev pub to_pid : ℤ → ℤ
to_pid v = let m = pos_part v % 2 ^ 32 in if ltb m (2 ^ 31) then pos m else negsuc (2 ^ 32 - 1 - m)

-- The keys that are fields of the state.
unfoldable pub with_field : ℤ → Bytes → Bytes → UpdateState → UpdateState
with_field now key value u =
    let v = read_int64 value in
    if ==_Bytes key (codes "prefix")
    then record u { prefix = value }
    else if ==_Bytes key (codes "source")
    then record u { source = value }
    else if ==_Bytes key (codes "installed_commit")
    then record u { installed_commit = value }
    else if ==_Bytes key (codes "previous_commit")
    then record u { previous_commit = value }
    else if ==_Bytes key (codes "remote_commit")
    then record u { remote_commit = value }
    else if ==_Bytes key (codes "installed_version")
    then record u { installed_version = clean_version value }
    else if ==_Bytes key (codes "remote_version")
    then record u { remote_version = clean_version value }
    else if ==_Bytes key (codes "commits_ahead")
    then within (pos 1) (pos 999999) v (λ n. record u { commits_ahead = n }) u
    else if ==_Bytes key (codes "checked_at")
    then within (pos 0) now v (λ n. record u { checked_at = n }) u
    else if ==_Bytes key (codes "status")
    then with_status (read_status value) u
    else if ==_Bytes key (codes "restart_pending")
    then record u { restart_pending = ==_Bytes value (codes "1") }
    else if ==_Bytes key (codes "pid")
    then within (pos 1) (pos max_int64) v (λ n. record u { pid = to_pid n }) u
    else if ==_Bytes key (codes "stage")
    then record u { stage = take 40 value }
    else if ==_Bytes key (codes "progress")
    then within (pos 0) (pos 100) v (λ n. record u { progress = n }) u
    else if ==_Bytes key (codes "message")
    then record u { message = take max_state_message_bytes value }
    else u

abbrev pub field_names : List Bytes
field_names =
    codes "prefix"
    ∷ codes "source"
    ∷ codes "installed_commit"
    ∷ codes "previous_commit"
    ∷ codes "remote_commit"
    ∷ codes "installed_version"
    ∷ codes "remote_version"
    ∷ codes "commits_ahead"
    ∷ codes "checked_at"
    ∷ codes "status"
    ∷ codes "restart_pending"
    ∷ codes "pid"
    ∷ codes "stage"
    ∷ codes "progress"
    ∷ codes "message"
    ∷ []

-- What is done with a key that is seen for the first time.
unfoldable pub take_key : ℤ → Bytes → Bytes → Reading → Reading
take_key now key value r =
    if ==_Bytes key (codes "schema")
    then record r { schema_ok = is_schema (read_int64 value) }
    else if is_seen key field_names
    then record r {
      parsed = with_field now key value r.parsed;
      saw_restart_pending = r.saw_restart_pending || ==_Bytes key (codes "restart_pending");
    }
    else if note_index key == 0
    then r
    else record r { noted = r.noted ++ (note_index key, clean_note value) ∷ [] }

-- The first of two lines with one key counts.
unfoldable pub take_entry : ℤ → Option (Bytes × Bytes) → Reading → Reading
take_entry now none r = r
take_entry now (some (key, value)) r =
    let name = trim key in
    if length name == 0 || is_seen name r.seen
    then r
    else take_key now name (trim value) (record r { seen = r.seen ++ name ∷ [] })

unfoldable pub take_lines : ℤ → List Bytes → Reading → Reading
take_lines now [] r = r
take_lines now (line ∷ lines) r = take_lines now lines (take_entry now (split_at_equals line) r)

unfoldable pub note_at : ℕ → List (ℕ × Bytes) → Bytes
note_at rank [] = []
note_at rank ((n, note) ∷ notes) = let rest = note_at rank notes in if n == rank then note else rest

-- The notes in their order, up to the first that is missing or empty.
unfoldable pub collect : ℕ → ℕ → List (ℕ × Bytes) → List Bytes
collect zero rank notes = []
collect (suc count) rank notes =
    let rest = collect count (rank + 1) notes in
    if length (note_at rank notes) == 0 then [] else note_at rank notes ∷ rest

abbrev pub is_restart : UpdateStatus → Bool
is_restart restart_is_pending = true
is_restart _ = false

unfoldable pub finish : Reading → UpdateState
finish r =
    let u = r.parsed in
    if not r.schema_ok then new_state else record u {
      restart_pending = u.restart_pending || (not r.saw_restart_pending && is_restart u.status);
      notes = collect max_update_notes 1 r.noted;
    }

unfoldable pub parse_update_state : Bytes → ℤ → UpdateState
parse_update_state raw now =
    if ltb max_state_bytes (length raw)
    then new_state
    else finish (take_lines now (lines_of raw) fresh)
