-- ===== src/Context.antt =====
-- The values that a `context.Context` carries for this package: the loopback flag of security.go,
-- and the observer of provenance.go. Observers are named by numbers, as by their addresses; a nil
-- observer is `none`.
use dalgo2http.Prelude.{ℕ, Option, Bool, true, if◌then◌else◌, not}

pub record Context : Type 0 where
  pub insecure_loopback : Bool
  pub observer : Option ℕ

unfoldable pub context_with_insecure_loopback : Context → Bool → Context
context_with_insecure_loopback ctx allow =
    if not allow then ctx else record ctx { insecure_loopback = true }

unfoldable pub insecure_loopback_from : Context → Bool
insecure_loopback_from ctx = ctx.insecure_loopback

unfoldable pub context_with_provenance_observer : Context → Option ℕ → Context
context_with_provenance_observer ctx obs = record ctx { observer = obs }

-- the observer that is attached; `none` if there is none, or if it is nil
abbrev pub provenance_observer_from : Context → Option ℕ
provenance_observer_from ctx = ctx.observer
