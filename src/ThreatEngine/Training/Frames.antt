-- ===== src/ThreatEngine/Training/Frames.antt =====
-- The generated traffic of threat-engine/train/train_model.py: its columns and their ranges.
use d_ai_api_sec.Prelude.{
  ℕ, ◌≡◌, refl, String, Option, none, some, List, [], ◌∷◌, length, length-map, All-map, replicate,
  replicate-All, length-replicate, Empty, All, arith, ◌∙◌,
}
use d_ai_api_sec.Prelude.Int.{ℤ, pos, ◌+ℤ◌, ◌≤ℤ◌, +ℤ_parts}
use d_ai_api_sec.Float.Order.{finite-IsNumber}
use d_ai_api_sec.Float.Arith.{add_mono, add-IsNumber}
use d_ai_api_sec.Float.{arithmetic}
use d_ai_api_sec.Prelude.Dict.{Dict}
use d_ai_api_sec.Float.{Float, dec, nought, add, ◌≼◌, IsFinite, IsNumber}
use d_ai_api_sec.ThreatEngine.Training.{
  Rng, Column, floats, ints, Frame, fabs, absolute, plus, plus_int,
}

-- The supports of the distributions, and the number of values of a draw.
pub record IsRng (rng : Rng) : Type 0 where
  pub gamma :
      (k : ℕ) (a b : Float) (n : ℕ)
      → All (λ x. IsFinite x × (nought ≼ x)) (rng.gamma k a b n) × (length (rng.gamma k a b n) ≡ n)
  pub normal :
      (k : ℕ) (a b : Float) (n : ℕ)
      → All IsFinite (rng.normal k a b n) × (length (rng.normal k a b n) ≡ n)
  pub exponential :
      (k : ℕ) (a : Float) (n : ℕ)
      → All (λ x. IsFinite x × (nought ≼ x)) (rng.exponential k a n)
        × (length (rng.exponential k a n) ≡ n)
  pub poisson :
      (k : ℕ) (a : Float) (n : ℕ)
      → All (λ x. pos 0 ≤ℤ x) (rng.poisson k a n) × (length (rng.poisson k a n) ≡ n)
  pub binomial :
      (k trials : ℕ) (a : Float) (n : ℕ)
      → All (λ x. (pos 0 ≤ℤ x) × (x ≤ℤ pos trials)) (rng.binomial k trials a n)
        × (length (rng.binomial k trials a n) ≡ n)

-- The values of a column, from a lower bound to an upper one, if there is one.
pub data Range : Type 0 where
  real : Float → Option Float → Range
  whole : ℤ → Option ℤ → Range

-- A column of n values in a range.
abbrev pub Holds : ℕ → Column → Range → Type 0
Holds n (floats xs) (real low none) = All (λ x. low ≼ x) xs × (length xs ≡ n)
Holds n (floats xs) (real low (some high)) = All (λ x. (low ≼ x) × (x ≼ high)) xs × (length xs ≡ n)
Holds n (ints ms) (whole low none) = All (λ m. low ≤ℤ m) ms × (length ms ≡ n)
Holds n (ints ms) (whole low (some high)) = All (λ m. (low ≤ℤ m) × (m ≤ℤ high)) ms × (length ms ≡ n)
Holds n column range = Empty

-- The columns have the names of the ranges, in order, and hold n values in them.
abbrev pub Fits : ℕ → Frame → Dict Range → Type 0
Fits n [] [] = Unit
Fits n ((name, column) ∷ frame) ((name', range) ∷ ranges) =
    (name ≡ name') × (Holds n column range × Fits n frame ranges)
Fits n frame ranges = Empty

-- What a live vector can hold under each name, the least values of one class of traffic being
-- stricter, and the label of the class.
abbrev pub traffic : Float → Float → ℤ → ℤ → Float → ℤ → Dict Range
traffic rate_10s rate_60s streak params anomaly label =
    ("req_rate_10s", real rate_10s none)
    ∷ ("req_rate_60s", real rate_60s none)
    ∷ ("distinct_endpoints_60s", whole (pos 0) none)
    ∷ ("failed_auth_streak", whole streak none)
    ∷ ("payload_entropy", real nought (some (dec 8 0)))
    ∷ ("param_count_deviation", whole params none)
    ∷ ("price_or_qty_anomaly", real anomaly none)
    ∷ ("session_age_seconds", real nought none)
    ∷ ("geo_velocity_kmph", real nought none)
    ∷ ("known_bad_ua_flag", whole (pos 0) (some (pos 1)))
    ∷ ("response_error_rate_5m", real nought (some (dec 1 0)))
    ∷ ("off_hours_flag", whole (pos 0) (some (pos 1)))
    ∷ ("label", whole label (some label))
    ∷ []

abbrev pub names : {V : Type 0} → Dict V → List String
names [] = []
names ((name, _) ∷ d) = name ∷ names d

fabs-nonneg : (x : Float) → IsNumber x → nought ≼ fabs x
fabs-nonneg x p = ground arith

fabs-IsFinite : (x : Float) → IsFinite x → IsFinite (fabs x)
fabs-IsFinite x p = ground arith

-- Literals to which a draw is added.
pub three : add nought (dec 3 0) ≡ dec 3 0
unfolding arithmetic
three = refl

pub ten : add nought (dec 10 0) ≡ dec 10 0
unfolding arithmetic
ten = refl

pub one_half : add nought (dec 15 1) ≡ dec 15 1
unfolding arithmetic
one_half = refl

pub literals_finite : IsFinite (dec 3 0) × (IsFinite (dec 10 0) × IsFinite (dec 15 1))
unfolding arithmetic
literals_finite = (refl, (refl, refl))

pub eight_pos : nought ≼ dec 8 0
unfolding arithmetic
eight_pos = refl

add-above : (c x : Float) → add nought c ≡ c → IsFinite c → IsFinite x × (nought ≼ x) → c ≼ add x c
add-above c x e f (fx, p) = rw e at (
    add_mono nought x c c p (finite-IsNumber c f) (add-IsNumber nought c refl f)
      (add-IsNumber x c fx f))

add_int-above : (c m : ℤ) → pos 0 ≤ℤ m → c ≤ℤ (m +ℤ c)
add_int-above c m p = ground (arith, +ℤ_parts m c)

pub plus-Holds :
    (n : ℕ) (c : Float) (xs : List Float)
    → add nought c ≡ c
    → IsFinite c
    → All (λ x. IsFinite x × (nought ≼ x)) xs × (length xs ≡ n)
    → Holds n (floats (plus c xs)) (real c none)
plus-Holds n c xs e f (h, l) = (
  All-map (λ x. IsFinite x × (nought ≼ x)) (λ x. c ≼ x) (λ x. add x c) xs
      (λ x p. add-above c x e f p) h,
  length-map xs (λ x. add x c) ∙ l,
)

pub plus_int-Holds :
    (n : ℕ) (c : ℤ) (ms : List ℤ)
    → Holds n (ints ms) (whole (pos 0) none)
    → Holds n (ints (plus_int c ms)) (whole c none)
plus_int-Holds n c ms (h, l) = (
  All-map (λ m. pos 0 ≤ℤ m) (λ m. c ≤ℤ m) (λ m. m +ℤ c) ms (λ m p. add_int-above c m p) h,
  length-map ms (λ m. m +ℤ c) ∙ l,
)

-- The values of a draw that is made non-negative.
pub absolute_all :
    (n : ℕ) (xs : List Float)
    → All IsFinite xs × (length xs ≡ n)
    → All (λ x. IsFinite x × (nought ≼ x)) (absolute xs) × (length (absolute xs) ≡ n)
absolute_all n xs (h, l) = (
  All-map IsFinite (λ x. IsFinite x × (nought ≼ x)) fabs xs
      (λ x p. (fabs-IsFinite x p, fabs-nonneg x (finite-IsNumber x p))) h,
  length-map xs fabs ∙ l,
)

pub nonneg-Holds :
    (n : ℕ) (xs : List Float)
    → All (λ x. IsFinite x × (nought ≼ x)) xs × (length xs ≡ n)
    → Holds n (floats xs) (real nought none)
nonneg-Holds n xs (h, l) = (seconds xs h, l)
  where
    seconds : (ys : List Float) → All (λ x. IsFinite x × (nought ≼ x)) ys → All (λ x. nought ≼ x) ys
    seconds [] h = tt
    seconds (y ∷ ys) ((_, p), ps) = (p, seconds ys ps)

pub finite_part : (xs : List Float) → All (λ x. IsFinite x × (nought ≼ x)) xs → All IsFinite xs
finite_part [] h = tt
finite_part (x ∷ xs) ((p, _), ps) = (p, finite_part xs ps)

pub label-Holds : (n : ℕ) (l : ℤ) → Holds n (ints (replicate n l)) (whole l (some l))
label-Holds n l = (
  replicate-All (λ m. (l ≤ℤ m) × (m ≤ℤ l)) n l (ground arith, ground arith),
  length-replicate n l,
)
