-- ===== src/AgentTree/Control/Steps.antt =====
-- The operations that wait, cancel and close; the interleavings of all operations as a step relation,
-- and the invariant of every tree that they reach.
use restscope.Prelude.{
  ℕ, ◌-◌, ◌≡◌, refl, sym, ◌∙◌, String, Bool, true, false, Option, none, some, List, [], ◌∷◌, map,
  All, arith, eq_iff, if◌then◌else◌, Bool-cases, Option-cases, inl, inr,
}
use restscope.AgentTree.Control.{
  queued, running, is_terminal, ResultStatus, AgentRecord, AgentTree, Result, ok, err, get, modify,
  new_tree, register_root, start_child, begin_child, finish_child, require_direct_child,
}
use restscope.AgentTree.Control.Waiting.{
  Watched, collect_record, collect_found, collect_one, collect_all, wait_leave, WaitResult,
  cancel_record, cancel_found, cancel_child, close,
}
use restscope.AgentTree.Control.Records.{
  ids, open_records, ids-modify, open_records-collect, All-get, All-modify,
}
use restscope.AgentTree.Control.Invariant.{
  IsRecord, IsValid, new_tree-IsValid, register_root-IsValid, start_child-IsValid,
  begin_child-IsValid, finish_child-IsValid, modified-IsValid,
}

cancel_record-IsRecord : (r : AgentRecord) → IsRecord r → IsRecord (cancel_record r)
cancel_record-IsRecord r k = record {
  shallow = k.shallow;
  settled = k.settled;
  ended = k.ended;
  counted = k.counted;
}

-- Only an open direct child is found, and it is the record of that identity.
pub require_direct_child_exact :
    (owner_id child_id : String) (s : AgentTree) (r : AgentRecord)
    → require_direct_child owner_id child_id s ≡ ok r
    → (get child_id s.records ≡ some r) × (r.parent_id ≡ some owner_id) × (r.collected ≡ false)
unfolding require_direct_child
require_direct_child_exact owner_id child_id s r h = elim (Option-cases (get child_id s.records)) [
  | inl none_there ↦ absurd (ground arith)
  | inr (x, e) ↦ elim (Option-cases x.parent_id) [
    | inl orphan ↦ absurd (ground arith)
    | inr (p, q) ↦ ground (arith, eq_iff p owner_id)
  ]
]

cancel_found-IsValid :
    (child_id : String) (s : AgentTree) (d : Result AgentRecord)
    → ((r : AgentRecord) → d ≡ ok r → get child_id s.records ≡ some r)
    → IsValid s
    → IsValid (cancel_found child_id s d).1
cancel_found-IsValid child_id s (err e) found v = v
cancel_found-IsValid child_id s (ok r) found v = elim (Bool-cases (is_terminal r.status)) [
  | inl ended ↦ rw ended v
  | inr going ↦ rw going (
      modified-IsValid cancel_record child_id s r (λ x. refl) (λ x. refl) (found r refl)
        (cancel_record-IsRecord r) v)
]

cancel_child-IsValid :
    (owner_id child_id : String) (s : AgentTree)
    → IsValid s
    → IsValid (cancel_child owner_id child_id s).1
unfolding cancel_child
cancel_child-IsValid owner_id child_id s v =
    cancel_found-IsValid child_id s (require_direct_child owner_id child_id s)
      (λ r h. (require_direct_child_exact owner_id child_id s r h).0) v

collected-IsValid :
    (id : String) (s : AgentTree) (r : AgentRecord)
    → get id s.records ≡ some r
    → is_terminal r.status ≡ true
    → r.collected ≡ false
    → IsValid s
    → IsValid
        (record s { records = modify collect_record id s.records; open_count = s.open_count - 1 })
collected-IsValid id s r found ended not_yet v =
    let k = All-get IsRecord id s.records r v.records found in
    record {
      distinct = rw (ids-modify collect_record id s.records (λ x. refl)) v.distinct;
      counted = omega (
        arith,
        v.counted,
        open_records-collect collect_record id s.records r (λ x. refl) found not_yet,
      );
      bounded = omega arith;
      roomy = v.roomy;
      records =
          All-modify IsRecord collect_record id s.records r found
            (record {
              shallow = k.shallow;
              settled = k.settled;
              ended = λ _. ended;
              counted = k.counted;
            })
            v.records;
    }

collect_found-IsValid :
    (w : Watched) (s : AgentTree) (o : Option AgentRecord)
    → get w.session_id s.records ≡ o
    → IsValid s
    → IsValid (collect_found w s o)
collect_found-IsValid w s none e v = v
collect_found-IsValid w s (some r) e v = elim (Bool-cases (is_terminal r.status)) [
  | inr going ↦ rw going v
  | inl ended ↦ elim (Bool-cases r.collected) [
    | inl done ↦ rw (ended, done) v
    | inr not_yet ↦ rw (ended, not_yet) (collected-IsValid w.session_id s r e ended not_yet v)
  ]
]

collect_all-IsValid : (ws : List Watched) (s : AgentTree) → IsValid s → IsValid (collect_all ws s)
unfolding collect_all
collect_all-IsValid [] s v = v
collect_all-IsValid (w ∷ ws) s v =
    collect_all-IsValid ws (collect_one w s)
      (collect_found-IsValid w s (get w.session_id s.records) refl v)

wait_leave-eq :
    (ws : List Watched) (expired : Bool) (s t : AgentTree) (out : WaitResult)
    → wait_leave ws expired s ≡ some (out, t)
    → t ≡ collect_all ws s
unfolding wait_leave
wait_leave-eq ws expired s t out h = ground arith

closed-IsRecord :
    (b : Bool) (r : AgentRecord) → IsRecord r → IsRecord (if b then r else cancel_record r)
closed-IsRecord true r k = k
closed-IsRecord false r k = cancel_record-IsRecord r k

close-IsRecord :
    (rs : List AgentRecord)
    → All IsRecord rs
    → All IsRecord (map (λ r. if r.collected then r else cancel_record r) rs)
close-IsRecord [] h = tt
close-IsRecord (r ∷ rs) h = (closed-IsRecord r.collected r h.0, close-IsRecord rs h.1)

ids-close :
    (rs : List AgentRecord)
    → ids (map (λ r. if r.collected then r else cancel_record r) rs) ≡ ids rs
ids-close [] = refl
ids-close (r ∷ rs) = ground (arith, ids-close rs)

open_records-close :
    (rs : List AgentRecord)
    → open_records (map (λ r. if r.collected then r else cancel_record r) rs) ≡ open_records rs
open_records-close [] = refl
open_records-close (r ∷ rs) = ground (arith, open_records-close rs)

close-IsValid : (s : AgentTree) → IsValid s → IsValid (close s)
unfolding close
close-IsValid s v = record {
  distinct = rw (ids-close s.records) v.distinct;
  counted = v.counted ∙ sym (open_records-close s.records);
  bounded = v.bounded;
  roomy = v.roomy;
  records = close-IsRecord s.records v.records;
}

-- One critical section: an operation of the interface, or a transition of a child's own thread. The
-- identity of a new child is fresh, as that of `uuid4` is.
pub data Step : AgentTree → AgentTree → Type 0 where
  register :
      {s t : AgentTree} (id profile : String) (was_cancelled : Bool)
      → register_root id profile was_cancelled s ≡ ok t
      → Step s t
  start :
      {s : AgentTree} (id : String) (submitted : Bool) (owner_id : String) (allowed : List String)
      (profile : String)
      → get id s.records ≡ none
      → Step s (start_child id submitted owner_id allowed profile s).1
  begin :
      {s : AgentTree} (id : String) (r : AgentRecord)
      → get id s.records ≡ some r
      → r.status ≡ queued
      → Step s (begin_child id s)
  finish :
      {s : AgentTree} (result : ResultStatus) (id : String) (r : AgentRecord)
      → get id s.records ≡ some r
      → r.status ≡ running
      → Step s (finish_child result id s)
  leave :
      {s t : AgentTree} (ws : List Watched) (expired : Bool) (out : WaitResult)
      → wait_leave ws expired s ≡ some (out, t)
      → Step s t
  cancel :
      {s : AgentTree} (owner_id child_id : String) → Step s (cancel_child owner_id child_id s).1
  shut : {s : AgentTree} → Step s (close s)

pub data Reach (s : AgentTree) : AgentTree → Type 0 where
  here : Reach s s
  next : {t u : AgentTree} → Reach s t → Step t u → Reach s u

Step-IsValid : {s t : AgentTree} → Step s t → IsValid s → IsValid t
Step-IsValid {s} {t} (register id profile was_cancelled h) v =
    register_root-IsValid id profile was_cancelled s t v h
Step-IsValid {s} (start id submitted owner_id allowed profile fresh) v =
    start_child-IsValid id submitted owner_id allowed profile s v fresh
Step-IsValid {s} (begin id r found was) v = begin_child-IsValid id s r v found was
Step-IsValid {s} (finish result id r found was) v = finish_child-IsValid result id s r v found was
Step-IsValid {s} {t} (leave ws expired out h) v =
    rw (wait_leave-eq ws expired s t out h) (collect_all-IsValid ws s v)
Step-IsValid {s} (cancel owner_id child_id) v = cancel_child-IsValid owner_id child_id s v
Step-IsValid {s} shut v = close-IsValid s v

Reach-IsValid : {s t : AgentTree} → Reach s t → IsValid s → IsValid t
Reach-IsValid here v = v
Reach-IsValid (next r st) v = Step-IsValid st (Reach-IsValid r v)

-- Whatever the order in which the operations and the children's threads take the lock, a tree that
-- started empty stays valid: the slots in use are the uncollected records and never more than the
-- limit, no Agent is deeper than three, an Agent has a result exactly when it has ended, and only then
-- is it collected.
pub tree_stays-IsValid :
    (open_agents active_agents : ℕ) (s t : AgentTree)
    → new_tree open_agents active_agents ≡ some s
    → Reach s t
    → IsValid t
tree_stays-IsValid open_agents active_agents s t h r =
    Reach-IsValid r (new_tree-IsValid open_agents active_agents s h)
