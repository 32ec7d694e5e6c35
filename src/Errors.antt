-- ===== src/Errors.antt =====
-- errors.go, the two sentinels of strict_csv.go and ecb_xml.go, and Go's error values.
-- An error is a sentinel, an error of another package, or what `fmt.Errorf` builds from its format
-- text and the errors under `%w`. The other arguments of a format are not kept. A result is a
-- value, an error, or a panic.
use dalgo2http.Prelude.{Bool, false, ◌||◌, ◌≡◌, refl, subst, String}

-- the package's sentinels, and `dal.ErrNotSupported` and the not-found error of dalgo
pub data Sentinel : Type 0 where
  invalid_config unknown_collection missing_param upstream upstream_client snapshot_miss : Sentinel
  redirect_not_allowed response_too_large address_blocked invalid_csv invalid_xml : Sentinel
  not_supported not_found : Sentinel

pub data Error : Type 0 where
  sentinel : Sentinel → Error
  foreign : String → Error
  errorf : String → Error → Error
  errorf_both : String → Error → Error → Error

abbrev pub same_sentinel : Sentinel → Sentinel → Bool
same_sentinel invalid_config invalid_config = Bool.true
same_sentinel unknown_collection unknown_collection = Bool.true
same_sentinel missing_param missing_param = Bool.true
same_sentinel upstream upstream = Bool.true
same_sentinel upstream_client upstream_client = Bool.true
same_sentinel snapshot_miss snapshot_miss = Bool.true
same_sentinel redirect_not_allowed redirect_not_allowed = Bool.true
same_sentinel response_too_large response_too_large = Bool.true
same_sentinel address_blocked address_blocked = Bool.true
same_sentinel invalid_csv invalid_csv = Bool.true
same_sentinel invalid_xml invalid_xml = Bool.true
same_sentinel not_supported not_supported = Bool.true
same_sentinel not_found not_found = Bool.true
same_sentinel _ _ = false

-- `errors.Is`
abbrev pub error_is : Error → Sentinel → Bool
error_is (sentinel t) s = same_sentinel t s
error_is (foreign m) s = false
error_is (errorf m e) s = error_is e s
error_is (errorf_both m e f) s = error_is e s || error_is f s

pub data Result {ℓ} (A : Type ℓ) : Type ℓ where
  ok : A → Result A
  err : Error → Result A
  panic : Result A

infixl 5 ◌>>=◌ ◌>>◌
abbrev pub ◌>>=◌ {ℓ κ} : {A : Type ℓ} {B : Type κ} → Result A → (A → Result B) → Result B
panic >>= continue = panic
err e >>= continue = err e
ok value >>= continue = continue value

-- one step after another that returns nothing
abbrev pub ◌>>◌ {ℓ} : {B : Type ℓ} → Result (Unit {0}) → Result B → Result B
step >> rest = step >>= λ done. rest

-- an early return of an error, if the test holds
abbrev pub fail_if : Bool → Error → Result (Unit {0})
fail_if Bool.true e = err e
fail_if Bool.false e = ok tt

-- an error on its way out, wrapped by `fmt.Errorf` with `%w`
abbrev pub wrap_error {ℓ} : {A : Type ℓ} → String → Result A → Result A
wrap_error m (ok a) = ok a
wrap_error m (err e) = err (errorf m e)
wrap_error m panic = panic

pub wrap_error-eq-ok {ℓ} :
    {A : Type ℓ} (m : String) (r : Result A) {a : A} → wrap_error m r ≡ ok a → r ≡ ok a
wrap_error-eq-ok m (ok b) h = h
wrap_error-eq-ok m (err e) h = cc
wrap_error-eq-ok m panic h = cc

-- a bind that succeeds has succeeded in both steps
pub >>=-eq-ok {ℓ κ} :
    {A : Type ℓ} {B : Type κ} (step : Result A) (continue : A → Result B) {out : B}
    → (step >>= continue) ≡ ok out
    → (value : A) × (step ≡ ok value) × (continue value ≡ ok out)
>>=-eq-ok panic continue h = cc
>>=-eq-ok (err e) continue h = cc
>>=-eq-ok (ok value) continue h = (value, refl, h)

pub fail_if-eq-ok {ℓ} :
    {B : Type ℓ} (b : Bool) (e : Error) (m : Result B) {x : B}
    → (fail_if b e >> m) ≡ ok x
    → (b ≡ false) × (m ≡ ok x)
fail_if-eq-ok Bool.true e m h = cc
fail_if-eq-ok Bool.false e m h = (refl, h)

pub ok_inj {ℓ} : {A : Type ℓ} (a b : A) → ok a ≡ ok b → a ≡ b
ok_inj a b h = cc

pub err_inj {ℓ} : {A : Type ℓ} (d e : Error) → ◌≡◌ {A = Result A} (err d) (err e) → d ≡ e
err_inj d e h = cc

-- A computation that never panics, and whose errors all satisfy `P`.
abbrev pub Raises {ℓ} : {A : Type ℓ} → (Error → Type 0) → Result A → Type 0
Raises P (ok a) = Unit
Raises P (err e) = P e
Raises P panic = ⊥

abbrev pub IsUnsupported : Error → Type 0
IsUnsupported e = error_is e not_supported ≡ Bool.true

pub Raises-bind {ℓ κ} :
    {A : Type ℓ} {B : Type κ} (P : Error → Type 0) (m : Result A) (f : A → Result B)
    → Raises P m
    → ((a : A) → Raises P (f a))
    → Raises P (m >>= f)
Raises-bind P (ok a) f h k = k a
Raises-bind P (err e) f h k = h
Raises-bind P panic f h k = h

-- the second step may use that the first has succeeded
pub Raises-bind_ok {ℓ κ} :
    {A : Type ℓ} {B : Type κ} (P : Error → Type 0) (m : Result A) (f : A → Result B)
    → Raises P m
    → ((a : A) → m ≡ ok a → Raises P (f a))
    → Raises P (m >>= f)
Raises-bind_ok P (ok a) f h k = k a refl
Raises-bind_ok P (err e) f h k = h
Raises-bind_ok P panic f h k = h

pub Raises-mono {ℓ} :
    {A : Type ℓ} (P Q : Error → Type 0) (m : Result A)
    → ((e : Error) → P e → Q e)
    → Raises P m
    → Raises Q m
Raises-mono P Q (ok a) k h = tt
Raises-mono P Q (err e) k h = k e h
Raises-mono P Q panic k h = h

pub Raises-err {ℓ} :
    {A : Type ℓ} (P : Error → Type 0) (m : Result A) (e : Error) → Raises P m → m ≡ err e → P e
Raises-err P (ok a) e h q = cc
Raises-err P (err d) e h q = subst P (err_inj d e q) h
Raises-err P panic e h q = cc

-- a guard, and what is done behind it
pub Raises-fail_if {ℓ} :
    {B : Type ℓ} (P : Error → Type 0) (b : Bool) (e : Error) (rest : Result B)
    → P e
    → (b ≡ false → Raises P rest)
    → Raises P (fail_if b e >> rest)
Raises-fail_if P Bool.true e rest h k = h
Raises-fail_if P Bool.false e rest h k = k refl

pub Raises-wrap_error {ℓ} :
    {A : Type ℓ} (P Q : Error → Type 0) (m : String) (r : Result A)
    → ((e : Error) → P e → Q (errorf m e))
    → Raises P r
    → Raises Q (wrap_error m r)
Raises-wrap_error P Q m (ok a) k h = tt
Raises-wrap_error P Q m (err e) k h = k e h
Raises-wrap_error P Q m panic k h = h

-- A computation that never panics.
abbrev pub Returns {ℓ} : {A : Type ℓ} → Result A → Type 0
Returns = Raises (λ e. Unit)

pub Raises-Returns {ℓ} : {A : Type ℓ} (P : Error → Type 0) (r : Result A) → Raises P r → Returns r
Raises-Returns P r = Raises-mono P (λ e. Unit) r (λ e h. tt)
