-- ===== src/RtmpServer/Handler/Leaves.antt =====
-- What is known of a result that may be a panic: `none` in the model of
-- mmids-rtmp/src/rtmp_server/actor/connection_handler.rs.
use mmids_core.Common.{◌≡◌, refl, true, Option, none, some, nat_eq, string_eq, is_some}
use mmids_core.Metadata.Buffer.{◌>>=◌}
use mmids_core.RtmpServer.Handler.Ready.{Runs}

-- What is returned, if anything is, has a property.
abbrev pub Leaves : {A : Type 0} → (A → Type 0) → Option A → Type 0
Leaves P none = Unit
Leaves P (some a) = P a

pub bind_cong :
    {A B C : Type 0} (m : Option A) (f : A → Option C) (g : A → Option B) (h : B → Option C)
    → ((a : A) → f a ≡ (g a >>= h))
    → (m >>= f) ≡ ((m >>= g) >>= h)
bind_cong none f g h each = refl
bind_cong (some a) f g h each = each a

pub Leaves-bind :
    {A B : Type 0} (P : A → Type 0) (Q : B → Type 0) (m : Option A) (f : A → Option B)
    → Leaves P m
    → ((a : A) → P a → Leaves Q (f a))
    → Leaves Q (m >>= f)
Leaves-bind P Q none f r next = tt
Leaves-bind P Q (some a) f r next = next a r

pub Leaves-any : {A : Type 0} (m : Option A) → Leaves (λ a. Unit {0}) m
Leaves-any none = tt
Leaves-any (some a) = tt

pub Leaves-both :
    {A : Type 0} (P Q : A → Type 0) (m : Option A)
    → Leaves P m
    → Leaves Q m
    → Leaves (λ a. P a × Q a) m
Leaves-both P Q none p q = tt
Leaves-both P Q (some a) p q = (p, q)

pub Runs-map :
    {A : Type 0} (P Q : A → Type 0) (m : Option A) → Runs P m → ((a : A) → P a → Q a) → Runs Q m
Runs-map P Q none r f = r
Runs-map P Q (some a) r f = f a r

pub Runs-value :
    {A : Type 0} (P : A → Type 0) (m : Option A) → Runs P m → (a : A) × (m ≡ some a) × P a
Runs-value P none r = absurd r
Runs-value P (some a) r = (a, refl, r)

pub is_some-Runs : {A : Type 0} (P : A → Type 0) (m : Option A) → Runs P m → is_some m ≡ true
is_some-Runs P none r = absurd r
is_some-Runs P (some a) r = refl

pub Runs-Leaves :
    {A : Type 0} (P Q : A → Type 0) (m : Option A) → Runs P m → Leaves Q m → Runs (λ a. P a × Q a) m
Runs-Leaves P Q none r l = r
Runs-Leaves P Q (some a) r l = (r, l)
