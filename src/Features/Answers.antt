-- ===== src/Features/Answers.antt =====
-- When a computation raises ValueError.
use vlytics.Features.{Built, failed, built, value_error, ◌>>=◌}
use vlytics.Features.Sound.{Returns}
use mathlib.Core.Path.{subst}
use vlytics.Prelude.{Bool, true, false, ◌||◌, ◌≡◌, ap, refl, if◌then◌else◌}

-- ValueError is raised if b, else P holds of what is returned.
abbrev pub Answers : {A : Type 0} → Bool → (A → Type 0) → Built A → Type 0
Answers true P m = m ≡ failed value_error
Answers false P m = Returns P m

pub Answers-bind :
    {A B : Type 0} (b c : Bool) (P : A → Type 0) (Q : B → Type 0) (m : Built A) (next : A → Built B)
    → Answers b P m
    → ((a : A) → P a → Answers c Q (next a))
    → Answers (b || c) Q (m >>= next)
Answers-bind true c P Q m next h k = ap (λ r. r >>= next) h
Answers-bind false c P Q (built a) next h k = k a h
Answers-bind false c P Q (failed e) next h k = absurd h

pub Answers-mono :
    {A : Type 0} (b c : Bool) (P Q : A → Type 0) (m : Built A)
    → b ≡ c
    → ((a : A) → P a → Q a)
    → Answers b P m
    → Answers c Q m
Answers-mono true c P Q m e k h = subst (λ c. Answers c Q m) e h
Answers-mono false c P Q (built a) e k h = subst (λ c. Answers c Q (built a)) e (k a h)
Answers-mono false c P Q (failed x) e k h = absurd h

pub Answers-if :
    {A : Type 0} (b c : Bool) (P : A → Type 0) (m : Built A)
    → Answers c P m
    → Answers (b || c) P (if b then failed value_error else m)
Answers-if true c P m h = refl
Answers-if false c P m h = h

-- ValueError is raised if b, else P holds of the whole outcome.
abbrev pub Refuses : {A : Type 0} → Bool → (Built A → Type 0) → Built A → Type 0
Refuses true P m = m ≡ failed value_error
Refuses false P m = P m

pub Refuses-if :
    {A : Type 0} (b c : Bool) (P : Built A → Type 0) (m : Built A)
    → Refuses c P m
    → Refuses (b || c) P (if b then failed value_error else m)
Refuses-if true c P m h = refl
Refuses-if false c P m h = h

pub Answers-Refuses :
    {A B : Type 0} (b : Bool) (P : A → Type 0) (Q : Built B → Type 0) (m : Built A)
    (next : A → Built B)
    → Answers b P m
    → ((a : A) → P a → Q (next a))
    → Refuses b Q (m >>= next)
Answers-Refuses true P Q m next h k = ap (λ r. r >>= next) h
Answers-Refuses false P Q (built a) next h k = k a h
Answers-Refuses false P Q (failed e) next h k = absurd h
