-- ===== src/AgentTree/Control/Waiting.antt =====
-- `wait_children`, `cancel_child` and `close`. A wait enters under the lock, sleeps on the condition
-- while other operations run, and leaves under the lock: the last two are one function of the tree at
-- the time, `none` while the wait goes on.
use restscope.Prelude.{
  ℕ, ◌-◌, String, Bool, true, false, not, ◌&&◌, ◌||◌, Option, none, some, List, [], ◌∷◌, map, any,
  eqb, if◌then◌else◌,
}
use restscope.AgentTree.Control.{
  TreeStatus, is_terminal, ResultStatus, AgentRecord, AgentTree, Result, ok, err, get, modify,
  require_direct_child,
}

-- The record with the version that the wait began with.
pub record Watched : Type 0 where
  pub session_id : String
  pub version : ℕ

-- `records` and `initial_versions`, or the first refusal.
unfoldable pub wait_enter : String → List String → AgentTree → Result (List Watched)
wait_enter owner_id [] s = ok []
wait_enter owner_id (id ∷ ids) s =
    let rest = wait_enter owner_id ids s in
    elim (require_direct_child owner_id id s) [
      | err e ↦ err e
      | ok r ↦ elim rest [
        | err e ↦ err e
        | ok ws ↦ ok (record { session_id = r.session_id; version = r.version } ∷ ws)
      ]
    ]

-- Whether one watched child has ended or changed.
unfoldable pub has_news : AgentTree → Watched → Bool
has_news s w = elim (get w.session_id s.records) [
  | none ↦ false
  | some r ↦ is_terminal r.status || not (eqb r.version w.version)
]

-- `_snapshot`, with the result by its status alone.
pub record AgentSnapshot : Type 0 where
  pub subagent_id : String
  pub profile_name : String
  pub status : TreeStatus
  pub result : Option ResultStatus

abbrev pub take_snapshot : AgentRecord → AgentSnapshot
take_snapshot r = record {
  subagent_id = r.session_id;
  profile_name = r.profile_name;
  status = r.status;
  result = r.result;
}

pub snapshots : AgentTree → List Watched → List AgentSnapshot
snapshots s [] = []
snapshots s (w ∷ ws) =
    let rest = snapshots s ws in
    elim (get w.session_id s.records) [ none ↦ rest | some r ↦ take_snapshot r ∷ rest ]

abbrev pub collect_record : AgentRecord → AgentRecord
collect_record r = record r { collected = true }

-- A terminal result is collected once, and frees the slot.
abbrev pub collect_found : Watched → AgentTree → Option AgentRecord → AgentTree
collect_found w s none = s
collect_found w s (some r) =
    if is_terminal r.status && not r.collected
    then record s {
      records = modify collect_record w.session_id s.records;
      open_count = s.open_count - 1;
    }
    else s

unfoldable pub collect_one : Watched → AgentTree → AgentTree
collect_one w s = collect_found w s (get w.session_id s.records)

unfoldable pub collect_all : List Watched → AgentTree → AgentTree
unfolding collect_one
collect_all [] s = s
collect_all (w ∷ ws) s = collect_all ws (collect_one w s)

pub record WaitResult : Type 0 where
  pub timed_out : Bool
  pub agents : List AgentSnapshot

unfoldable pub wait_leave : List Watched → Bool → AgentTree → Option (WaitResult × AgentTree)
unfolding has_news snapshots collect_all
wait_leave ws expired s =
    let ready = any (has_news s) ws in
    if ready || expired
    then some (record { timed_out = not ready; agents = snapshots s ws }, collect_all ws s)
    else none

pub data CancelStatus : Type 0 where
  already_terminal cancellation_requested : CancelStatus

abbrev pub cancel_record : AgentRecord → AgentRecord
cancel_record r = record r { is_cancelled = true }

abbrev pub cancel_found : String → AgentTree → Result AgentRecord → Result CancelStatus × AgentTree
cancel_found child_id s (err e) = (err e, s)
cancel_found child_id s (ok r) =
    if is_terminal r.status
    then (ok already_terminal, s)
    else (ok cancellation_requested, record s { records = modify cancel_record child_id s.records })

unfoldable pub cancel_child : String → String → AgentTree → Result CancelStatus × AgentTree
cancel_child owner_id child_id s =
    cancel_found child_id s (require_direct_child owner_id child_id s)

-- `close`, on the tree; the executor's shutdown is not modelled.
unfoldable pub close : AgentTree → AgentTree
close s = record s { records = map (λ r. if r.collected then r else cancel_record r) s.records }
