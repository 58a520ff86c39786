-- ===== src/AgentTree/Budget.antt =====
-- `RolloutBudget`. The source counts weighted tokens in floats, an output token as 1 and a non-cached
-- input token as 0.1; here they are counted exactly, in tenths, and the limit is a whole number of
-- tokens. A comparison with `limit * percentage / 100` is multiplied out by 100.
use restscope.Prelude.{
  ℕ, ◌+◌, ◌-◌, ◌*◌, ◌≡◌, refl, Bool, false, not, ◌&&◌, ◌||◌, Option, none, some, List, [], ◌∷◌,
  ◌++◌, keep, leb, ltb, eqb, arith, if◌then◌else◌, Bool-cases, inl, inr,
}

-- Membership in the set of reminders that were sent.
abbrev pub has : ℕ → List ℕ → Bool
has p [] = false
has p (q ∷ qs) = eqb p q || has p qs

pub record RolloutBudget : Type 0 where
  pub limit : Option ℕ
  pub used : ℕ
  pub sent : List ℕ

pub record BudgetCharge : Type 0 where
  pub weighted_tokens : ℕ
  pub remaining_tokens : ℕ
  pub exceeded : Bool
  pub reminder_percentages : List ℕ

-- `__init__`; `none` where it raises.
unfoldable pub new_budget : Option ℕ → Option RolloutBudget
new_budget none = some (record { limit = none; used = 0; sent = [] })
new_budget (some tokens) =
    if eqb tokens 0 then none else some (record { limit = some (tokens * 10); used = 0; sent = [] })

abbrev pub reminder_percentages : List ℕ
reminder_percentages = 50 ∷ 25 ∷ 10 ∷ []

-- Output in full, and one tenth of the input that was not cached.
pub weighted : ℕ → ℕ → ℕ → ℕ
weighted prompt_tokens cached_input_tokens output_tokens =
    output_tokens * 10 + (prompt_tokens - cached_input_tokens)

-- `before_remaining > limit * percentage / 100 >= remaining`
pub crosses : ℕ → ℕ → ℕ → ℕ → Bool
crosses limit before after percentage =
    ltb (limit * percentage + 100 * before) (100 * limit)
    && leb (100 * limit) (limit * percentage + 100 * after)

-- The body of `charge` under the lock, for a budget with a limit.
charge_limited : ℕ → ℕ → RolloutBudget → RolloutBudget × BudgetCharge
unfolding crosses
charge_limited limit w b =
    let after = b.used + w in
    let crossed =
      keep (λ p. not (has p b.sent) && crosses limit b.used after p) reminder_percentages in
    (
      record b { used = after; sent = b.sent ++ crossed },
      record {
        weighted_tokens = w;
        remaining_tokens = limit - after;
        exceeded = ltb limit after;
        reminder_percentages = crossed;
      },
    )

charge_unlimited : ℕ → RolloutBudget → RolloutBudget × BudgetCharge
charge_unlimited w b = (
  record b { used = b.used + w },
  record { weighted_tokens = w; remaining_tokens = 0; exceeded = false; reminder_percentages = [] },
)

charge_weighted : Option ℕ → ℕ → RolloutBudget → RolloutBudget × BudgetCharge
unfolding charge_limited charge_unlimited
charge_weighted none w b = charge_unlimited w b
charge_weighted (some limit) w b = charge_limited limit w b

pub charge : ℕ → ℕ → ℕ → RolloutBudget → RolloutBudget × BudgetCharge
unfolding weighted charge_weighted
charge prompt_tokens cached_input_tokens output_tokens b =
    charge_weighted b.limit (weighted prompt_tokens cached_input_tokens output_tokens) b

-- The share of the limit that is left has come down to the percentage.
abbrev pub is_reached : ℕ → ℕ → ℕ → Bool
is_reached limit used percentage = leb (100 * limit) (limit * percentage + 100 * used)

-- A reminder has been sent exactly when its share has been reached.
abbrev pub IsTracked : Option ℕ → RolloutBudget → Type 0
IsTracked none b = b.sent ≡ []
IsTracked (some limit) b =
    (has 50 b.sent ≡ is_reached limit b.used 50)
    × (has 25 b.sent ≡ is_reached limit b.used 25)
    × (has 10 b.sent ≡ is_reached limit b.used 10)

has-append : (p : ℕ) (xs ys : List ℕ) → has p (xs ++ ys) ≡ (has p xs || has p ys)
has-append p [] ys = refl
has-append p (x ∷ xs) ys = ground (arith, has-append p xs ys)

charge_limited-IsTracked :
    (limit w : ℕ) (b : RolloutBudget)
    → IsTracked (some limit) b
    → IsTracked (some limit) (charge_limited limit w b).0
unfolding charge_limited
charge_limited-IsTracked limit w b h = (
  rw has-append (ground (arith, h.0)),
  rw has-append (ground (arith, h.1)),
  rw has-append (ground (arith, h.2)),
)

-- What one response reports, given the percentage: its share has been reached by this response.
abbrev pub Reports : ℕ → RolloutBudget → ℕ → RolloutBudget × BudgetCharge → Type 0
Reports limit b p (b', c) =
    has p c.reminder_percentages ≡ (is_reached limit b'.used p && not (is_reached limit b.used p))

-- The same for the body under the lock.
limited-Reports :
    (limit w : ℕ) (b : RolloutBudget)
    → IsTracked (some limit) b
    → let (b', c) = charge_weighted (some limit) w b in
      Reports limit b 50 (b', c)
      × Reports limit b 25 (b', c)
      × Reports limit b 10 (b', c)
      × (b'.used ≡ b.used + w)
      × (c.remaining_tokens ≡ limit - b'.used)
      × (c.exceeded ≡ ltb limit b'.used)
unfolding charge_weighted
limited-Reports limit w b h =
    (ground (arith, h.0), ground (arith, h.1), ground (arith, h.2), refl, refl, refl)

fresh-IsTracked :
    (tokens : ℕ) (b : RolloutBudget) → new_budget (some tokens) ≡ some b → IsTracked b.limit b
unfolding new_budget
fresh-IsTracked tokens b h = elim (Bool-cases (eqb tokens 0)) [
  | inl zero_tokens ↦ absurd (ground arith)
  | inr positive ↦
      let same : record { limit = some (tokens * 10); used = 0; sent = [] } ≡ b = ground arith in
      rw (← same) (ground arith, ground arith, ground arith)
]

charge_weighted-IsTracked :
    (o : Option ℕ) (w : ℕ) (b : RolloutBudget)
    → IsTracked o b
    → IsTracked o (charge_weighted o w b).0
unfolding charge_weighted
charge_weighted-IsTracked none w b h = h
charge_weighted-IsTracked (some limit) w b h = charge_limited-IsTracked limit w b h

limit-charge_weighted :
    (o : Option ℕ) (w : ℕ) (b : RolloutBudget) → (charge_weighted o w b).0.limit ≡ b.limit
unfolding charge_weighted
limit-charge_weighted none w b = refl
limit-charge_weighted (some limit) w b = refl

-- One model response: its prompt tokens, the cached part of them, and its output tokens.
pub record Usage : Type 0 where
  pub prompt_tokens : ℕ
  pub cached_input_tokens : ℕ
  pub output_tokens : ℕ

pub charge_each : List Usage → RolloutBudget → RolloutBudget
charge_each [] b = b
charge_each (u ∷ us) b =
    charge_each us (charge u.prompt_tokens u.cached_input_tokens u.output_tokens b).0

charge-IsTracked :
    (u : Usage) (b : RolloutBudget)
    → IsTracked b.limit b
    → let b' = (charge u.prompt_tokens u.cached_input_tokens u.output_tokens b).0 in
      IsTracked b'.limit b'
unfolding charge
charge-IsTracked u b h = rw limit-charge_weighted (charge_weighted-IsTracked b.limit _ b h)

charge_each-IsTracked :
    (us : List Usage) (b : RolloutBudget)
    → IsTracked b.limit b
    → let b' = charge_each us b in IsTracked b'.limit b'
unfolding charge_each
charge_each-IsTracked [] b h = h
charge_each-IsTracked (u ∷ us) b h = charge_each-IsTracked us _ (charge-IsTracked u b h)

-- After any responses, a reminder has been sent exactly when the share of the limit that is left has
-- come down to its percentage; without a limit none has been sent.
pub sent_exact :
    (o : Option ℕ) (b : RolloutBudget) (us : List Usage)
    → new_budget o ≡ some b
    → let b' = charge_each us b in IsTracked b'.limit b'
unfolding new_budget
sent_exact none b us h = charge_each-IsTracked us b (ground arith)
sent_exact (some tokens) b us h = charge_each-IsTracked us b (fresh-IsTracked tokens b h)

-- With a limit and the reminders tracked, a response reports a percentage exactly when it is the one
-- that brings the share of the limit that is left down to it; so no percentage is ever reported twice.
-- The remaining tokens and the excess are those of the limit and the new total.
pub charge-Reports :
    (limit prompt cached output : ℕ) (b : RolloutBudget)
    → b.limit ≡ some limit
    → IsTracked b.limit b
    → let (b', c) = charge prompt cached output b in
      Reports limit b 50 (b', c)
      × Reports limit b 25 (b', c)
      × Reports limit b 10 (b', c)
      × (b'.used ≡ b.used + weighted prompt cached output)
      × (c.remaining_tokens ≡ limit - b'.used)
      × (c.exceeded ≡ ltb limit b'.used)
unfolding charge
charge-Reports limit prompt cached output b l h =
    rw l (limited-Reports limit (weighted prompt cached output) b (rw l at h))
