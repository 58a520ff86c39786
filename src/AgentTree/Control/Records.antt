-- ===== src/AgentTree/Control/Records.antt =====
-- Laws of the records as a dict: lookups and the count of open records under each write.
use restscope.Prelude.{
  ℕ, suc, ◌+◌, ◌≡◌, refl, subst, String, true, false, ◌||◌, none, some, List, [], ◌∷◌, map, All,
  contains, unique, arith, eq_iff, ◌==◌, if◌then◌else◌, Bool-cases, inl, inr,
}
use restscope.AgentTree.Control.{AgentRecord, get, put, delete, modify}

abbrev pub ids : List AgentRecord → List String
ids = map (λ (r : AgentRecord). r.session_id)

-- The records that hold a slot.
abbrev pub open_records : List AgentRecord → ℕ
open_records [] = 0
open_records (r ∷ rs) = if r.collected then open_records rs else suc (open_records rs)

pub get-put :
    (r : AgentRecord) (rs : List AgentRecord) (id : String)
    → get id (put r rs) ≡ (if r.session_id == id then some r else get id rs)
unfolding get put
get-put r [] id = ground arith
get-put r (x ∷ rs) id = ground (
  arith,
  get-put r rs id,
  eq_iff x.session_id r.session_id,
  eq_iff x.session_id id,
  eq_iff r.session_id id,
)

-- Before `f` is applied the record is the one that `get` finds; `f` keeps the identity.
pub get-modify :
    (f : AgentRecord → AgentRecord) (k id : String) (rs : List AgentRecord)
    → ((r : AgentRecord) → (f r).session_id ≡ r.session_id)
    → get id (modify f k rs)
      ≡ (if k == id then (elim (get id rs) [ none ↦ none | some r ↦ some (f r) ]) else get id rs)
unfolding get modify
get-modify f k id [] same = ground arith
get-modify f k id (x ∷ rs) same = ground (
  arith,
  get-modify f k id rs same,
  same x,
  eq_iff x.session_id k,
  eq_iff x.session_id id,
  eq_iff k id,
  eq_iff (f x).session_id id,
)

pub get-none-contains :
    (id : String) (rs : List AgentRecord) → get id rs ≡ none → contains id (ids rs) ≡ false
unfolding get
get-none-contains id [] h = refl
get-none-contains id (x ∷ rs) h =
    ground (arith, get-none-contains id rs, eq_iff id x.session_id, eq_iff x.session_id id)

-- A new key is put at the end, and deleting it gives the dict back.
pub delete-put :
    (r : AgentRecord) (rs : List AgentRecord)
    → contains r.session_id (ids rs) ≡ false
    → delete r.session_id (put r rs) ≡ rs
unfolding delete put
delete-put r [] h = ground (arith, eq_iff r.session_id r.session_id)
delete-put r (x ∷ rs) h =
    ground
      (arith, delete-put r rs, eq_iff x.session_id r.session_id, eq_iff r.session_id x.session_id)

pub contains-put :
    (k : String) (r : AgentRecord) (rs : List AgentRecord)
    → contains k (ids (put r rs)) ≡ (contains k (ids rs) || k == r.session_id)
unfolding put
contains-put k r [] = ground arith
contains-put k r (x ∷ rs) = ground (
  arith,
  contains-put k r rs,
  eq_iff x.session_id r.session_id,
  eq_iff k x.session_id,
  eq_iff k r.session_id,
)

pub unique-put :
    (r : AgentRecord) (rs : List AgentRecord)
    → unique (ids rs) ≡ true
    → unique (ids (put r rs)) ≡ true
unfolding put
unique-put r [] h = refl
unique-put r (x ∷ rs) h =
    ground
      (arith, unique-put r rs, contains-put x.session_id r rs, eq_iff x.session_id r.session_id)

pub ids-modify :
    (f : AgentRecord → AgentRecord) (k : String) (rs : List AgentRecord)
    → ((r : AgentRecord) → (f r).session_id ≡ r.session_id)
    → ids (modify f k rs) ≡ ids rs
unfolding modify
ids-modify f k [] same = refl
ids-modify f k (x ∷ rs) same = ground (arith, ids-modify f k rs same, same x)

pub open_records-put :
    (r : AgentRecord) (rs : List AgentRecord)
    → contains r.session_id (ids rs) ≡ false
    → r.collected ≡ false
    → open_records (put r rs) ≡ open_records rs + 1
unfolding put
open_records-put r [] h c = ground arith
open_records-put r (x ∷ rs) h c = ground (
  arith,
  open_records-put r rs,
  eq_iff x.session_id r.session_id,
  eq_iff r.session_id x.session_id,
)

-- A write that leaves `collected` alone leaves the count alone.
pub open_records-modify :
    (f : AgentRecord → AgentRecord) (k : String) (rs : List AgentRecord)
    → ((r : AgentRecord) → (f r).collected ≡ r.collected)
    → open_records (modify f k rs) ≡ open_records rs
unfolding modify
open_records-modify f k [] same = refl
open_records-modify f k (x ∷ rs) same = ground (arith, open_records-modify f k rs same, same x)

-- Collecting an open record frees one slot.
pub open_records-collect :
    (f : AgentRecord → AgentRecord) (k : String) (rs : List AgentRecord) (r : AgentRecord)
    → ((x : AgentRecord) → (f x).collected ≡ true)
    → get k rs ≡ some r
    → r.collected ≡ false
    → open_records (modify f k rs) + 1 ≡ open_records rs
unfolding modify get
open_records-collect f k [] r done h c = cc
open_records-collect f k (x ∷ rs) r done h c =
    ground (arith, open_records-collect f k rs r done, done x)

module _ (P : AgentRecord → Type 0) where
  pub All-put : (r : AgentRecord) (rs : List AgentRecord) → P r → All P rs → All P (put r rs)
  unfolding put
  All-put r [] p h = (p, tt)
  All-put r (x ∷ rs) p h = elim (Bool-cases (x.session_id == r.session_id)) [
    | inl same ↦ rw same (p, h.1)
    | inr other ↦ rw other (h.0, All-put r rs p h.1)
  ]

  pub All-get :
      (id : String) (rs : List AgentRecord) (r : AgentRecord) → All P rs → get id rs ≡ some r → P r
  unfolding get
  All-get id [] r h e = absurd (cc)
  All-get id (x ∷ rs) r h e = elim (Bool-cases (x.session_id == id)) [
    | inl same ↦ subst P (ground arith) h.0
    | inr other ↦ All-get id rs r h.1 (ground arith)
  ]

  -- A write through a reference, to a record that is at hand.
  pub All-modify :
      (f : AgentRecord → AgentRecord) (k : String) (rs : List AgentRecord) (r : AgentRecord)
      → get k rs ≡ some r
      → P (f r)
      → All P rs
      → All P (modify f k rs)
  unfolding modify get
  All-modify f k [] r e p h = tt
  All-modify f k (x ∷ rs) r e p h = elim (Bool-cases (x.session_id == k)) [
    | inl same ↦ rw same (subst (λ y. P (f y)) (ground arith) p, h.1)
    | inr other ↦ rw other (h.0, All-modify f k rs r (ground arith) p h.1)
  ]

pub session_id-get :
    (id : String) (rs : List AgentRecord) (r : AgentRecord) → get id rs ≡ some r → r.session_id ≡ id
unfolding get
session_id-get id [] r h = cc
session_id-get id (x ∷ rs) r h = ground (arith, session_id-get id rs r, eq_iff x.session_id id)
