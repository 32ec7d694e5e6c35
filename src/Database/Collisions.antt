-- ===== src/Database/Collisions.antt =====
-- Which requests a database of snapshots tells apart.
use dalgo2http.Prelude.{String, ◌≡◌, ap, ◌==◌, true, false}
use dalgo2http.Context.{Context}
use dalgo2http.Runtime.{Go}
use dalgo2http.Descriptor.{Collection}
use dalgo2http.Request.{Env, World}
use dalgo2http.Snapshot.{read_snapshot}
use dalgo2http.Snapshot.Order.{le}
use dalgo2http.Snapshot.Collisions.{joined, KeepsUnderscores, pair, snapshot_key-collides}
use dalgo2http.Database.{snapshot_only, Database, fetch_snapshot, fetch_by_mode, fetch_rows}

-- Where escaping leaves underscores as they are, a database that serves snapshots answers two different
-- requests of two parameters alike: the one in which the second name, the greater one, has an
-- underscore, and the one in which that underscore and what stands in front of it have moved from
-- there to the end of the first value, and the second name is still the greater one.
pub fetch_rows-collides :
    (g : Go) (env : Env) (d : Database) (ctx : Context) (coll : Collection) (n₁ v₁ m n₂ v₂ : String)
    (w : World)
    → d.mode ≡ snapshot_only
    → KeepsUnderscores g
    → le n₁ (joined m n₂) ≡ true
    → (n₁ == joined m n₂) ≡ false
    → le n₁ n₂ ≡ true
    → (n₁ == n₂) ≡ false
    → fetch_rows g env d ctx coll (pair n₁ v₁ (joined m n₂) v₂) w
      ≡ fetch_rows g env d ctx coll (pair n₁ (joined v₁ m) n₂ v₂) w
unfolding fetch_rows fetch_by_mode
fetch_rows-collides g env d ctx coll n₁ v₁ m n₂ v₂ w mode keeps s₁ d₁ s₂ d₂ =
    rw (mode, fetch_by_mode)
      (ap (λ key. fetch_snapshot g env d ctx coll (read_snapshot g d.snapshots key) w)
        (snapshot_key-collides g coll.name n₁ v₁ m n₂ v₂ keeps s₁ d₁ s₂ d₂))
