-- ===== src/Database/Params.antt =====
-- The parameters of a read as a Go map: lists of parameters up to the order of iteration.
use mathlib.Core.Quot
use mathlib.Core.Quot.{Quot}
use text.Mathlib.TextEquality.{IsScalar-prop}
use dalgo2http.Prelude.{String, List, Dict, ◌≡◌, ap, ◌↔◌}
use dalgo2http.Context.{Context}
use dalgo2http.Value.{Row}
use dalgo2http.Runtime.{Go}
use dalgo2http.Descriptor.{Collection}
use dalgo2http.Provenance.{Provenance}
use dalgo2http.Request.{Env, World}
use dalgo2http.Snapshot.Names.{SameMap}
use dalgo2http.Database.{Database, Read, fetch_rows}
use dalgo2http.Database.Maps.{fetch_rows-SameMap}

abbrev pub Params : Type 0
Params = Quot SameMap

abbrev pub params_of : Dict String → Params
params_of = Quot.mk

pub Read-set : IsSet (Read (List Row × Provenance))
Read-set = hlevel IsScalar-prop

module _ (g : Go) (env : Env) (d : Database) (ctx : Context) (coll : Collection) (w : World) where
  -- the read of the entries of a map, in whatever order
  abbrev pub fetch_params : Params → Read (List Row × Provenance)
  fetch_params =
      Quot.lift Read-set (λ m. fetch_rows g env d ctx coll m w)
        λ m m' same. fetch_rows-SameMap g env d ctx coll m m' w same

  -- A function of Go maps gives, on the entries of a map in any order, what the read of them gives.
  abbrev pub IsRead : (Params → Read (List Row × Provenance)) → Type 0
  IsRead f = (m : Dict String) → f (params_of m) ≡ fetch_rows g env d ctx coll m w

  -- A read is a function of the parameters as a Go map, that is of lists of entries, two of which stand
  -- for one map if they have the same keys, in some order, and the same values under them: a function of
  -- maps gives on every list what the read of it gives, its result, the requests issued and what the
  -- observer is told, if and only if it is the read of maps.
  pub fetch_rows-IsRead :
      (f : Params → Read (List Row × Provenance)) → IsRead f ↔ (f ≡ fetch_params)
  fetch_rows-IsRead f = (
    λ is_read i p. Quot.ind (λ p'. Read-set (f p') (fetch_params p')) is_read p i,
    λ e m. ap (λ f'. f' (params_of m)) e,
  )
