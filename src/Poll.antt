-- ===== src/Poll.antt =====
-- `wait.PollImmediate` of k8s.io/apimachinery, which `accept --wait` uses, as an interface: it runs a
-- condition again and again until the condition answers true or an error, or the time is over.
use clusteradm.Base.{ℕ, zero, suc, Bool, if◌then◌else◌}
use clusteradm.Effect.{Event, Prog, pure, fail, ◌>>=◌}
use clusteradm.Effect.Emits.{Emits, emits_rules}

-- A poller keeps to the events of its condition.
pub record IsPoller {C E : Type 0} (poll : Prog C E Bool → Prog C E (Unit {0})) : Type 1 where
  pub emits :
      (P : Event C → Type 0) (condition : Prog C E Bool)
      → Emits P condition
      → Emits P (poll condition)

-- A poller that gives up with an error after some rounds.
unfoldable pub poll_rounds : {C E : Type 0} → ℕ → E → Prog C E Bool → Prog C E (Unit {0})
poll_rounds zero timeout condition = fail timeout
poll_rounds (suc n) timeout condition = do
  done ← condition
  if done then pure tt else poll_rounds n timeout condition

poll_rounds-Emits :
    {C E : Type 0} (n : ℕ) (timeout : E) (P : Event C → Type 0) (condition : Prog C E Bool)
    → Emits P condition
    → Emits P (poll_rounds n timeout condition)
unfolding poll_rounds
poll_rounds-Emits zero timeout P condition k = search emits_rules
poll_rounds-Emits (suc n) timeout P condition k =
    search (emits_rules, k, poll_rounds-Emits n timeout P condition k)

pub poll_rounds-IsPoller :
    {C E : Type 0} (n : ℕ) (timeout : E) → IsPoller (poll_rounds {C = C} n timeout)
poll_rounds-IsPoller n timeout = record { emits = poll_rounds-Emits n timeout }
