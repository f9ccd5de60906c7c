-- ===== src/Prelude/Replies.antt =====
-- Results of code that may return an error or panic, and the monad of such code over a state.
use Prim.Native.String.{String}
use mathlib.Core.Path.{◌≡◌, refl, subst}

-- `RouterError` of error.rs.
pub data RouterError : Type 0 where
  connection_closed missing_signature invalid_frame session_already_exists : RouterError
  decoding_error encoding_error : String → RouterError

-- `panic` is a Rust panic: an `unwrap` of `None`, an arithmetic overflow, a read past a buffer.
pub data Reply {ℓ} (A : Type ℓ) : Type ℓ where
  ok : A → Reply A
  err : RouterError → Reply A
  panic : Reply A

-- What was written before an early return or a panic stays written.
abbrev pub M {ℓ κ} : Type ℓ → Type κ → Type (ℓ ⊔ κ)
M S A = S → Reply A × S

module _ {ℓ κ} {S : Type ℓ} {A : Type κ} where
  abbrev pub and_then {μ} : {B : Type μ} → Reply A × S → (A → M S B) → Reply B × S
  and_then (ok a, s) f = f a s
  and_then (err e, s) f = (err e, s)
  and_then (panic, s) f = (panic, s)

infixl 5 ◌>>=◌ ◌>>◌
abbrev pub ◌>>=◌ {ℓ κ μ} : {S : Type ℓ} {A : Type κ} {B : Type μ} → M S A → (A → M S B) → M S B
◌>>=◌ m f s = and_then (m s) f

abbrev pub ◌>>◌ {ℓ κ μ} : {S : Type ℓ} {A : Type κ} {B : Type μ} → M S A → M S B → M S B
◌>>◌ m k s = and_then (m s) (λ _. k)

abbrev pub pure {ℓ κ} : {S : Type ℓ} {A : Type κ} → A → M S A
pure a s = (ok a, s)

abbrev pub fail {ℓ κ} : {S : Type ℓ} {A : Type κ} → RouterError → M S A
fail e s = (err e, s)

abbrev pub crash {ℓ κ} : {S : Type ℓ} {A : Type κ} → M S A
crash s = (panic, s)

-- A result computed from no state.
abbrev pub lift {ℓ κ} : {S : Type ℓ} {A : Type κ} → Reply A → M S A
lift r s = (r, s)

abbrev pub bind_reply {ℓ κ} : {A : Type ℓ} {B : Type κ} → Reply A → (A → Reply B) → Reply B
bind_reply (ok a) f = f a
bind_reply (err e) f = err e
bind_reply panic f = panic

-- What a reply holds, if it is a result, has the property.
abbrev pub Holds {ℓ κ} : {A : Type ℓ} → (A → Type κ) → Reply A → Type κ
Holds P (ok a) = P a
Holds P (err e) = Unit
Holds P panic = Unit

pub Holds-ok {ℓ κ} :
    {A : Type ℓ} (P : A → Type κ) (x : Reply A) (a : A) → Holds P x → x ≡ ok a → P a
Holds-ok P x a h e = subst (Holds P) e h

pub bind_reply-Holds {ℓ κ μ} :
    {A : Type ℓ} {B : Type κ} (P : B → Type μ) (x : Reply A) (f : A → Reply B)
    → ((a : A) → x ≡ ok a → Holds P (f a))
    → Holds P (bind_reply x f)
bind_reply-Holds P (ok a) f h = h a refl
bind_reply-Holds P (err e) f h = tt
bind_reply-Holds P panic f h = tt

pub Holds-map {ℓ κ μ} :
    {A : Type ℓ} (P : A → Type κ) (Q : A → Type μ) (x : Reply A)
    → ((a : A) → P a → Q a)
    → Holds P x
    → Holds Q x
Holds-map P Q (ok a) f h = f a h
Holds-map P Q (err e) f h = tt
Holds-map P Q panic f h = tt

-- There is a result, neither an error nor a panic.
abbrev pub IsOk {ℓ} : {A : Type ℓ} → Reply A → Type ℓ
IsOk {A} x = (a : A) × (x ≡ ok a)

pub bind_reply-IsOk {ℓ κ} :
    {A : Type ℓ} {B : Type κ} (x : Reply A) (f : A → Reply B)
    → IsOk x
    → ((a : A) → IsOk (f a))
    → IsOk (bind_reply x f)
bind_reply-IsOk x f (a, e) h = rw e (h a)
