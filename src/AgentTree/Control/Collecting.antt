-- ===== src/AgentTree/Control/Collecting.antt =====
-- What a wait returns and collects.
use restscope.Prelude.{
  ◌-◌, ◌≡◌, refl, String, Bool, true, false, not, ◌&&◌, ◌||◌, Option, none, some, List, [], ◌∷◌,
  any, All, arith, Bool-cases, Option-cases, inl, inr, eq_refl,
}
use restscope.AgentTree.Control.{AgentRecord, AgentTree, is_terminal, get, modify}
use restscope.AgentTree.Control.Waiting.{
  Watched, has_news, snapshots, collect_record, collect_found, collect_one, collect_all, WaitResult,
  wait_leave,
}
use restscope.AgentTree.Control.Records.{get-modify}

-- Whether an Agent's record has ended, and whether it is collected.
abbrev pub holds : (AgentRecord → Bool) → Option AgentRecord → Bool
holds p none = false
holds p (some r) = p r

abbrev pub has_ended : AgentTree → String → Bool
has_ended s id = holds (λ r. is_terminal r.status) (get id s.records)

abbrev pub is_collected : AgentTree → String → Bool
is_collected s id = holds (λ r. r.collected) (get id s.records)

-- A later tree: what has ended stays ended, and what is collected stays collected.
abbrev pub IsLater : AgentTree → AgentTree → Type 0
IsLater s t =
    (id : String)
    → (has_ended s id ≡ true → has_ended t id ≡ true)
      × (is_collected s id ≡ true → is_collected t id ≡ true)

-- The record of one identity after one record is collected.
holds-collect :
    (p : AgentRecord → Bool) (k id : String) (rs : List AgentRecord)
    → ((r : AgentRecord) → p r ≡ true → p (collect_record r) ≡ true)
    → holds p (get id rs) ≡ true
    → holds p (get id (modify collect_record k rs)) ≡ true
holds-collect p k id rs kept h = elim (Option-cases (get id rs)) [
  | inl missing ↦ absurd (ground (arith, missing))
  | inr (r, found) ↦
      rw (get-modify collect_record k id rs (λ x. refl), found) (ground (arith, kept r, found))
]

collected-IsLater :
    (k : String) (s : AgentTree)
    → IsLater s
        (record s { records = modify collect_record k s.records; open_count = s.open_count - 1 })
collected-IsLater k s id = (
  holds-collect (λ r. is_terminal r.status) k id s.records (λ r e. e),
  holds-collect (λ r. r.collected) k id s.records (λ r e. refl),
)

collect_found-IsLater :
    (w : Watched) (s : AgentTree) (o : Option AgentRecord) → IsLater s (collect_found w s o)
collect_found-IsLater w s none id = (λ e. e, λ e. e)
collect_found-IsLater w s (some r) id =
    elim (Bool-cases (is_terminal r.status && not r.collected)) [
      | inl e ↦ rw e (collected-IsLater w.session_id s id)
      | inr e ↦ rw e (λ e. e, λ e. e)
    ]

collect_all-IsLater : (ws : List Watched) (s : AgentTree) → IsLater s (collect_all ws s)
unfolding collect_all
collect_all-IsLater [] s id = (λ e. e, λ e. e)
collect_all-IsLater (w ∷ ws) s id =
    let (a, b) = collect_found-IsLater w s (get w.session_id s.records) id in
    let (c, d) = collect_all-IsLater ws (collect_one w s) id in (λ e. c (a e), λ e. d (b e))

collect_found-collected :
    (w : Watched) (s : AgentTree) (o : Option AgentRecord)
    → get w.session_id s.records ≡ o
    → holds (λ r. is_terminal r.status) o ≡ true
    → is_collected (collect_found w s o) w.session_id ≡ true
collect_found-collected w s none e h = absurd (ground arith)
collect_found-collected w s (some r) e h = elim (Bool-cases r.collected) [
  | inl done ↦ rw (h, done, e, done) refl
  | inr not_yet ↦
      rw
        (
          h,
          not_yet,
          get-modify collect_record w.session_id w.session_id s.records (λ x. refl),
          eq_refl w.session_id,
          e,
        )
        refl
]

collect_all-collected :
    (ws : List Watched) (s u : AgentTree)
    → IsLater s u
    → All
        (λ w. has_ended s w.session_id ≡ true → is_collected (collect_all ws u) w.session_id ≡ true)
        ws
unfolding collect_all collect_one
collect_all-collected [] s u later = tt
collect_all-collected (w ∷ ws) s u later = (
  λ e.
      (collect_all-IsLater ws (collect_one w u) w.session_id).1
        (collect_found-collected w u (get w.session_id u.records) refl ((later w.session_id).0 e)),
  collect_all-collected ws s (collect_one w u) (λ id.
      let (a, b) = later id in
      let (c, d) = collect_found-IsLater w u (get w.session_id u.records) id in
      (λ e. c (a e), λ e. d (b e))),
)

-- A wait that leaves returns the snapshots of the watched Agents at that time, tells a timeout exactly
-- when none of them has ended or changed, and leaves no ended one of them uncollected. Nothing that was
-- ended or collected is any less so.
pub record IsCollected (ws : List Watched) (s t : AgentTree) (out : WaitResult) : Type 0 where
  pub timed_out : out.timed_out ≡ not (any (has_news s) ws)
  pub agents : out.agents ≡ snapshots s ws
  pub collected : All (λ w. has_ended s w.session_id ≡ true → is_collected t w.session_id ≡ true) ws
  pub later : IsLater s t

-- A wait leaves only when one of the watched Agents has ended or changed, or its time is over. It returns
-- the snapshots of the time, tells a timeout exactly when there was no news, and collects every watched
-- Agent that has ended; no Agent stops being ended or collected.
pub wait_leave-IsCollected :
    (ws : List Watched) (expired : Bool) (s t : AgentTree) (out : WaitResult)
    → wait_leave ws expired s ≡ some (out, t)
    → ((any (has_news s) ws || expired) ≡ true) × IsCollected ws s t out
unfolding wait_leave
wait_leave-IsCollected ws expired s t out h =
    let left : t ≡ collect_all ws s = ground arith in
    (
      ground arith,
      record {
        timed_out = ground arith;
        agents = ground arith;
        collected = rw left (collect_all-collected ws s s (λ id. (λ e. e, λ e. e)));
        later = rw left (collect_all-IsLater ws s);
      },
    )
