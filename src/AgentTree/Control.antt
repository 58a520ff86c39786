-- ===== src/AgentTree/Control.antt =====
-- `AgentTreeControl`: each public operation runs under one lock, so it is a function on the tree. The
-- threads are the environment: `uuid4`, whether a submission fails, and which child begins or ends
-- next are arguments. The tree keeps its records in a dict, here a list in insertion order.
pub mod Waiting
pub mod Records
pub mod Invariant
pub mod Steps
pub mod Collecting
use restscope.Prelude.{
  ℕ, suc, ◌+◌, ◌-◌, ◌*◌, ◌≤◌, String, Bool, true, false, not, ◌&&◌, ◌||◌, Option, none, some, List,
  [], ◌∷◌, ◌++◌, map, any, all, find, keep, contains, leb, ltb, eqb, ◌==◌, if◌then◌else◌, length,
  option_eq, is_some,
}

pub data TreeStatus : Type 0 where
  queued running completed failed cancelled : TreeStatus

-- `status in {"completed", "failed", "cancelled"}`
abbrev pub is_terminal : TreeStatus → Bool
is_terminal queued = false
is_terminal running = false
is_terminal completed = true
is_terminal failed = true
is_terminal cancelled = true

-- `AgentResult.status`; the source tells these apart from `"failed"` only by two tests.
pub data ResultStatus : Type 0 where
  completed failed cancelled : ResultStatus

-- `cancelled` is `cancel_event.is_set()`; of the result only its status matters to the tree.
pub record AgentRecord : Type 0 where
  pub session_id : String
  pub profile_name : String
  pub parent_id : Option String
  pub depth : ℕ
  pub status : TreeStatus
  pub is_cancelled : Bool
  pub result : Option ResultStatus
  pub collected : Bool
  pub version : ℕ

pub record AgentTree : Type 0 where
  pub max_open_agents : ℕ
  pub records : List AgentRecord
  pub open_count : ℕ

-- The `ToolFailure` codes, and the `RuntimeError` of a second root.
pub data ToolError : Type 0 where
  already_has_root profile_not_authorized depth_exceeded capacity_exceeded : ToolError
  submission_failed owner_closed not_direct_child : ToolError

pub data Result {ℓ} (A : Type ℓ) : Type ℓ where
  ok : A → Result A
  err : ToolError → Result A

-- `self._records.get(session_id)`
unfoldable pub get : String → List AgentRecord → Option AgentRecord
get id rs = find (λ r. r.session_id == id) rs

-- `self._records[record.session_id] = record`
unfoldable pub put : AgentRecord → List AgentRecord → List AgentRecord
put record' [] = record' ∷ []
put record' (r ∷ rs) =
    let rest = put record' rs in
    if r.session_id == record'.session_id then record' ∷ rs else r ∷ rest

-- `del self._records[session_id]`
unfoldable pub delete : String → List AgentRecord → List AgentRecord
delete id [] = []
delete id (r ∷ rs) = let rest = delete id rs in if r.session_id == id then rs else r ∷ rest

-- A write through a reference to one record.
unfoldable pub modify : (AgentRecord → AgentRecord) → String → List AgentRecord → List AgentRecord
modify f id [] = []
modify f id (r ∷ rs) =
    let rest = modify f id rs in if r.session_id == id then f r ∷ rs else r ∷ rest

-- `__init__`; `none` where it raises.
unfoldable pub new_tree : ℕ → ℕ → Option AgentTree
new_tree max_open_agents max_active_agents =
    if ltb max_open_agents 1 || ltb max_active_agents 1
    then none
    else some (record { max_open_agents = max_open_agents; records = []; open_count = 0 })

abbrev pub new_record : String → String → Option String → ℕ → TreeStatus → AgentRecord
new_record session_id profile_name parent_id depth status = record {
  session_id = session_id;
  profile_name = profile_name;
  parent_id = parent_id;
  depth = depth;
  status = status;
  is_cancelled = false;
  result = none;
  collected = false;
  version = 0;
}

-- The tree of one root, which may come with a cancel event of its own, set or not.
abbrev pub with_root : String → String → Bool → AgentTree → AgentTree
with_root session_id profile_name was_cancelled s = record s {
  records =
      record (new_record session_id profile_name none 0 running) { is_cancelled = was_cancelled }
      ∷ [];
  open_count = 1;
}

abbrev pub if_empty : List AgentRecord → AgentTree → Result AgentTree
if_empty [] t = ok t
if_empty (r ∷ rs) t = err already_has_root

unfoldable pub register_root : String → String → Bool → AgentTree → Result AgentTree
register_root session_id profile_name was_cancelled s =
    if_empty s.records (with_root session_id profile_name was_cancelled s)

-- The guards of `start_child`; the result is the depth of the child.
unfoldable pub admit : String → List String → String → AgentTree → Result ℕ
admit owner_id allowed profile_name s = elim (get owner_id s.records) [
  | none ↦ err owner_closed
  | some owner ↦
      if not (contains profile_name allowed)
      then err profile_not_authorized
      else if ltb 3 (owner.depth + 1)
      then err depth_exceeded
      else if leb s.max_open_agents s.open_count
      then err capacity_exceeded
      else ok (owner.depth + 1)
]

-- The tree with a slot reserved for a new child.
unfoldable pub reserve : String → String → String → ℕ → AgentTree → AgentTree
unfolding put
reserve session_id owner_id profile_name depth s = record s {
  records = put (new_record session_id profile_name (some owner_id) depth queued) s.records;
  open_count = s.open_count + 1;
}

-- The roll-back of a reservation that could not be submitted.
unfoldable pub release : String → AgentTree → AgentTree
unfolding delete
release session_id s = record s {
  records = delete session_id s.records;
  open_count = s.open_count - 1;
}

-- The transaction of an admitted child at its depth: reserved, and undone if it cannot be submitted.
unfoldable pub submit :
    String → Bool → String → String → AgentTree → Result ℕ → Result String × AgentTree
submit session_id submitted owner_id profile_name s (err e) = (err e, s)
submit session_id submitted owner_id profile_name s (ok depth) =
    let reserved = reserve session_id owner_id profile_name depth s in
    if submitted
    then (ok session_id, reserved)
    else (err submission_failed, release session_id reserved)

-- `start_child`, with the new identity and whether the executor takes the submission. The tree comes
-- back beside the result, since a failed submission has written to it.
unfoldable pub start_child :
    String → Bool → String → List String → String → AgentTree → Result String × AgentTree
unfolding submit
start_child session_id submitted owner_id allowed profile_name s =
    submit session_id submitted owner_id profile_name s (admit owner_id allowed profile_name s)

-- The two critical sections of `_run_child`.
abbrev pub begin_record : AgentRecord → AgentRecord
begin_record r = record r { status = running; version = r.version + 1 }

abbrev pub to_status : ResultStatus → TreeStatus
to_status ResultStatus.completed = TreeStatus.completed
to_status ResultStatus.cancelled = TreeStatus.cancelled
to_status ResultStatus.failed = TreeStatus.failed

abbrev pub finish_record : ResultStatus → AgentRecord → AgentRecord
finish_record result r = record r {
  result = some result;
  status = to_status result;
  version = r.version + 1;
}

unfoldable pub begin_child : String → AgentTree → AgentTree
unfolding modify
begin_child id s = record s { records = modify begin_record id s.records }

unfoldable pub finish_child : ResultStatus → String → AgentTree → AgentTree
unfolding modify
finish_child result id s = record s { records = modify (finish_record result) id s.records }

-- `_require_direct_child`
unfoldable pub require_direct_child : String → String → AgentTree → Result AgentRecord
require_direct_child owner_id child_id s = elim (get child_id s.records) [
  | none ↦ err not_direct_child
  | some r ↦
      if not (option_eq ◌==◌ r.parent_id (some owner_id)) || r.collected
      then err not_direct_child
      else ok r
]
