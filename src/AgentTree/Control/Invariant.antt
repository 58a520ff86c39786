-- ===== src/AgentTree/Control/Invariant.antt =====
-- The invariant of the tree, and that every operation and every step of a child keeps it.
use restscope.Prelude.{
  ℕ, suc, ◌≤◌, ◌≡◌, refl, sym, ◌∙◌, String, Bool, true, false, ◌||◌, none, some, List, [], ◌∷◌, All,
  unique, arith, Bool-cases, Option-cases, inl, inr, is_some, ltb,
}
use restscope.AgentTree.Control.{
  TreeStatus, queued, running, is_terminal, ResultStatus, AgentRecord, AgentTree, Result, ok, err,
  get, modify, new_tree, new_record, register_root, with_root, if_empty, admit, reserve, release,
  submit, start_child, ToolError, begin_record, finish_record, begin_child, finish_child,
}
use restscope.AgentTree.Control.Records.{
  ids, open_records, get-none-contains, unique-put, delete-put, ids-modify, open_records-put,
  open_records-modify, All-put, All-get, All-modify,
}

-- How many critical sections of `_run_child` a child has behind it.
abbrev pub stage : TreeStatus → ℕ
stage queued = 0
stage running = 1
stage TreeStatus.completed = 2
stage TreeStatus.failed = 2
stage TreeStatus.cancelled = 2

-- At most three levels down; a result exactly when the Agent has ended; collected only then; and of
-- a child, the version counts its transitions.
pub record IsRecord (r : AgentRecord) : Type 0 where
  pub shallow : r.depth ≤ 3
  pub settled : is_some r.result ≡ is_terminal r.status
  pub ended : r.collected ≡ true → is_terminal r.status ≡ true
  pub counted : is_some r.parent_id ≡ true → r.version ≡ stage r.status

-- The identities are distinct, and the slots in use are the uncollected records and within the limit.
pub record IsValid (s : AgentTree) : Type 0 where
  pub distinct : unique (ids s.records) ≡ true
  pub counted : s.open_count ≡ open_records s.records
  pub bounded : s.open_count ≤ s.max_open_agents
  pub roomy : 1 ≤ s.max_open_agents
  pub records : All IsRecord s.records

pub new_tree-IsValid :
    (open_agents active_agents : ℕ) (s : AgentTree)
    → new_tree open_agents active_agents ≡ some s
    → IsValid s
unfolding new_tree
new_tree-IsValid open_agents active_agents s h =
    elim (Bool-cases (ltb open_agents 1 || ltb active_agents 1)) [
      | inl bad ↦ absurd (ground arith)
      | inr good ↦
          let same : record { max_open_agents = open_agents; records = []; open_count = 0 } ≡ s =
            ground arith in
          rw (← same) (record {
            distinct = refl;
            counted = refl;
            bounded = omega arith;
            roomy = ground arith;
            records = tt;
          })
    ]

if_empty-eq-ok : (rs : List AgentRecord) (t u : AgentTree) → if_empty rs t ≡ ok u → t ≡ u
if_empty-eq-ok [] t u h = ground arith
if_empty-eq-ok (r ∷ rs) t u h = cc

pub register_root-IsValid :
    (id profile : String) (was_cancelled : Bool) (s t : AgentTree)
    → IsValid s
    → register_root id profile was_cancelled s ≡ ok t
    → IsValid t
unfolding register_root
register_root-IsValid id profile was_cancelled s t v h =
    rw (← if_empty-eq-ok s.records (with_root id profile was_cancelled s) t h) (record {
      distinct = refl;
      counted = refl;
      bounded = v.roomy;
      roomy = v.roomy;
      records = (
        record {
          shallow = omega arith;
          settled = refl;
          ended = λ e. absurd (cc);
          counted = λ e. absurd (cc);
        },
        tt,
      );
    })

admit-depth :
    (owner_id : String) (allowed : List String) (profile : String) (s : AgentTree) (depth : ℕ)
    → admit owner_id allowed profile s ≡ ok depth
    → (depth ≤ 3) × (suc s.open_count ≤ s.max_open_agents)
unfolding admit
admit-depth owner_id allowed profile s depth h = elim (Option-cases (get owner_id s.records)) [
  | inl none_there ↦ absurd (ground arith)
  | inr (r, e) ↦ ground arith
]

reserve-IsValid :
    (id owner_id profile : String) (depth : ℕ) (s : AgentTree)
    → IsValid s
    → get id s.records ≡ none
    → depth ≤ 3
    → suc s.open_count ≤ s.max_open_agents
    → IsValid (reserve id owner_id profile depth s)
unfolding reserve
reserve-IsValid id owner_id profile depth s v fresh deep room =
    let r : AgentRecord = new_record id profile (some owner_id) depth queued in
    record {
      distinct = unique-put r s.records v.distinct;
      counted = omega (
        arith,
        v.counted,
        open_records-put r s.records (get-none-contains id s.records fresh) refl,
      );
      bounded = omega arith;
      roomy = v.roomy;
      records =
          All-put IsRecord r s.records
            (record {
              shallow = deep;
              settled = refl;
              ended = λ e. absurd (cc);
              counted = λ e. refl;
            })
            v.records;
    }

-- A submission that fails is undone completely.
release-reserve :
    (id owner_id profile : String) (depth : ℕ) (s : AgentTree)
    → get id s.records ≡ none
    → release id (reserve id owner_id profile depth s) ≡ s
unfolding release reserve
release-reserve id owner_id profile depth s fresh = ground (
  arith,
  delete-put (new_record id profile (some owner_id) depth queued) s.records
      (get-none-contains id s.records fresh),
)

submit-IsValid :
    (id : String) (submitted : Bool) (owner_id profile : String) (s : AgentTree) (d : Result ℕ)
    → IsValid s
    → get id s.records ≡ none
    → ((depth : ℕ) → d ≡ ok depth → (depth ≤ 3) × (suc s.open_count ≤ s.max_open_agents))
    → IsValid (submit id submitted owner_id profile s d).1
unfolding submit
submit-IsValid id submitted owner_id profile s (err e) v fresh fits = v
submit-IsValid id true owner_id profile s (ok depth) v fresh fits =
    reserve-IsValid id owner_id profile depth s v fresh (fits depth refl).0 (fits depth refl).1
submit-IsValid id false owner_id profile s (ok depth) v fresh fits =
    rw (release-reserve id owner_id profile depth s fresh) v

-- Starting a child keeps the invariant, whether it is refused, submitted or undone.
pub start_child-IsValid :
    (id : String) (submitted : Bool) (owner_id : String) (allowed : List String) (profile : String)
    (s : AgentTree)
    → IsValid s
    → get id s.records ≡ none
    → IsValid (start_child id submitted owner_id allowed profile s).1
unfolding start_child
start_child-IsValid id submitted owner_id allowed profile s v fresh =
    submit-IsValid id submitted owner_id profile s (admit owner_id allowed profile s) v fresh
      (admit-depth owner_id allowed profile s)

submit_refused :
    (id owner_id profile : String) (s : AgentTree) (d : Result ℕ) (e : ToolError)
    → (submit id true owner_id profile s d).0 ≡ err e
    → (submit id true owner_id profile s d).1 ≡ s
unfolding submit
submit_refused id owner_id profile s (err x) e h = refl
submit_refused id owner_id profile s (ok depth) e h = cc

submit_undone :
    (id owner_id profile : String) (s : AgentTree) (d : Result ℕ)
    → get id s.records ≡ none
    → (submit id false owner_id profile s d).1 ≡ s
unfolding submit
submit_undone id owner_id profile s (err e) fresh = refl
submit_undone id owner_id profile s (ok depth) fresh =
    release-reserve id owner_id profile depth s fresh

-- A child that is refused, or that the executor does not take, leaves the tree exactly as it was.
pub start_child_undone :
    (id : String) (submitted : Bool) (owner_id : String) (allowed : List String) (profile : String)
    (s : AgentTree) (e : ToolError)
    → get id s.records ≡ none
    → (start_child id submitted owner_id allowed profile s).0 ≡ err e
    → (start_child id submitted owner_id allowed profile s).1 ≡ s
unfolding start_child
start_child_undone id true owner_id allowed profile s e fresh h =
    submit_refused id owner_id profile s (admit owner_id allowed profile s) e h
start_child_undone id false owner_id allowed profile s e fresh h =
    submit_undone id owner_id profile s (admit owner_id allowed profile s) fresh

-- A write of one record that keeps its identity, its slot and its own invariant.
pub modified-IsValid :
    (f : AgentRecord → AgentRecord) (id : String) (s : AgentTree) (r : AgentRecord)
    → ((x : AgentRecord) → (f x).session_id ≡ x.session_id)
    → ((x : AgentRecord) → (f x).collected ≡ x.collected)
    → get id s.records ≡ some r
    → (IsRecord r → IsRecord (f r))
    → IsValid s
    → IsValid (record s { records = modify f id s.records })
modified-IsValid f id s r same open_same found keeps v = record {
  distinct = rw (ids-modify f id s.records same) v.distinct;
  counted = v.counted ∙ sym (open_records-modify f id s.records open_same);
  bounded = v.bounded;
  roomy = v.roomy;
  records =
      All-modify IsRecord f id s.records r found
        (keeps (All-get IsRecord id s.records r v.records found)) v.records;
}

-- A queued child begins.
pub begin_child-IsValid :
    (id : String) (s : AgentTree) (r : AgentRecord)
    → IsValid s
    → get id s.records ≡ some r
    → r.status ≡ queued
    → IsValid (begin_child id s)
unfolding begin_child
begin_child-IsValid id s r v found was =
    modified-IsValid begin_record id s r (λ x. refl) (λ x. refl) found
      (λ k. record {
        shallow = k.shallow;
        settled = ground (arith, k.settled);
        ended = ground (arith, k.ended);
        counted = λ e. ground (arith, k.counted e);
      })
      v

-- A running child ends.
pub finish_child-IsValid :
    (result : ResultStatus) (id : String) (s : AgentTree) (r : AgentRecord)
    → IsValid s
    → get id s.records ≡ some r
    → r.status ≡ running
    → IsValid (finish_child result id s)
unfolding finish_child
finish_child-IsValid result id s r v found was =
    modified-IsValid (finish_record result) id s r (λ x. refl) (λ x. refl) found
      (λ k. record {
        shallow = k.shallow;
        settled = ground arith;
        ended = λ _. ground arith;
        counted = λ e. ground (arith, k.counted e);
      })
      v
