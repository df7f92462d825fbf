-- ===== src/Tests/Wire.antt =====
-- A concrete wire format for the messages of src/pkg/types/usertag.proto: numbers as they are, a
-- text as its characters, each after a 1, and a 0.
use Prim.Native.Nat.{Ordering, compare}
use Prim.Native.Char.{Char, char, code, IsScalar}
use text.Mathlib.TextEquality.{IsScalar-prop}
use allezon.Base.{
  ℕ, zero, suc, ◌≡◌, refl, ap, ◌∙◌, String, Option, none, some, List, [], ◌∷◌, Result, ok, err,
  failed, ◌>>=◌,
}
use allezon.Types.Marshal.{PbUserTag, PbProductInfo, Protobuf, ProtobufLaws}

-- `IsScalar` of the three comparisons, and whether it holds
abbrev IsLt : Ordering → Type 0
IsLt Ordering.lt = Unit
IsLt Ordering.eq = ⊥
IsLt Ordering.gt = ⊥

abbrev BothLt : Ordering → Ordering → Type 0
BothLt Ordering.lt o = IsLt o
BothLt Ordering.eq _ = ⊥
BothLt Ordering.gt _ = ⊥

abbrev Scalar : Ordering → Ordering → Ordering → Type 0
Scalar Ordering.lt _ _ = Unit
Scalar Ordering.eq o p = BothLt o p
Scalar Ordering.gt o p = BothLt o p

abbrev decide : (o p q : Ordering) → Option (Scalar o p q)
decide Ordering.lt p q = some tt
decide Ordering.eq Ordering.lt Ordering.lt = some tt
decide Ordering.gt Ordering.lt Ordering.lt = some tt
decide _ _ _ = none

decided : (o p q : Ordering) (h : Scalar o p q) → (k : Scalar o p q) × (decide o p q ≡ some k)
decided Ordering.lt p q h = (tt, refl)
decided Ordering.eq Ordering.lt Ordering.lt h = (tt, refl)
decided Ordering.gt Ordering.lt Ordering.lt h = (tt, refl)
decided Ordering.eq Ordering.lt Ordering.eq h = absurd h
decided Ordering.eq Ordering.lt Ordering.gt h = absurd h
decided Ordering.gt Ordering.lt Ordering.eq h = absurd h
decided Ordering.gt Ordering.lt Ordering.gt h = absurd h
decided Ordering.eq Ordering.eq q h = absurd h
decided Ordering.eq Ordering.gt q h = absurd h
decided Ordering.gt Ordering.eq q h = absurd h
decided Ordering.gt Ordering.gt q h = absurd h

abbrev char_of_decision : (n : ℕ) → Option (IsScalar n) → Result Char
char_of_decision n (some h) = ok (char n h)
char_of_decision n none = err failed

abbrev char_of : ℕ → Result Char
char_of n = char_of_decision n (decide (compare n 55296) (compare 57343 n) (compare n 1114112))

char_of-code : (c : Char) → char_of (code c) ≡ ok c
char_of-code (char n h) =
    let (k, is) = decided (compare n 55296) (compare 57343 n) (compare n 1114112) h in
    ap (char_of_decision n) is ∙ ap (λ x. ok (char n x)) (IsScalar-prop n k h)

abbrev codes_before : String → List ℕ → List ℕ
codes_before String.[] rest = 0 ∷ rest
codes_before (String.◌∷◌ c s) rest = 1 ∷ code c ∷ codes_before s rest

abbrev cons_char : Result Char → Result (String × List ℕ) → Result (String × List ℕ)
cons_char c read = do first ← c; more ← read; ok (String.◌∷◌ first more.0, more.1)

abbrev read_text : List ℕ → Result (String × List ℕ)
read_text (zero ∷ rest) = ok (String.[], rest)
read_text (suc _ ∷ c ∷ rest) = cons_char (char_of c) (read_text rest)
read_text _ = err failed

read_text-codes : (s : String) (rest : List ℕ) → read_text (codes_before s rest) ≡ ok (s, rest)
read_text-codes String.[] rest = refl
read_text-codes (String.◌∷◌ c s) rest =
    ap (λ r. cons_char r (read_text (codes_before s rest))) (char_of-code c)
    ∙ ap (cons_char (ok c)) (read_text-codes s rest)

abbrev info_before : Option PbProductInfo → List ℕ
info_before none = []
info_before (some info) =
    info.product_id ∷ info.price ∷ codes_before info.brand_id (codes_before info.category_id [])

abbrev read_info : List ℕ → Result (Option PbProductInfo)
read_info (product_id ∷ price ∷ rest) = do
  brand_id ← read_text rest
  category_id ← read_text brand_id.1
  ok (
      some (record {
        product_id = product_id;
        brand_id = brand_id.0;
        category_id = category_id.0;
        price = price;
      }))
read_info _ = ok none

read_info-before : (info : Option PbProductInfo) → read_info (info_before info) ≡ ok info
read_info-before none = refl
read_info-before (some info) = rw (
  read_text-codes info.brand_id (codes_before info.category_id []),
  read_text-codes info.category_id [],
)

abbrev time_before : Option ℕ → List ℕ → List ℕ
time_before none rest = 0 ∷ 0 ∷ rest
time_before (some t) rest = 1 ∷ t ∷ rest

abbrev body : PbUserTag ℕ → List ℕ
body m =
    m.device
    ∷ m.action
    ∷ codes_before m.cookie
        (codes_before m.country (codes_before m.origin (info_before m.product_info)))

abbrev read_body : Option ℕ → List ℕ → Result (PbUserTag ℕ)
read_body time (device ∷ action ∷ rest) = do
  cookie ← read_text rest
  country ← read_text cookie.1
  origin ← read_text country.1
  product_info ← read_info origin.1
  ok (record {
    time = time;
    cookie = cookie.0;
    country = country.0;
    device = device;
    action = action;
    origin = origin.0;
    product_info = product_info;
  })
read_body time _ = err failed

abbrev pub read : List ℕ → Result (PbUserTag ℕ)
read (zero ∷ _ ∷ rest) = read_body none rest
read (suc _ ∷ t ∷ rest) = read_body (some t) rest
read _ = err failed

read_body-body : (m : PbUserTag ℕ) → read_body m.time (body m) ≡ ok m
read_body-body m = rw (
  read_text-codes m.cookie
      (codes_before m.country (codes_before m.origin (info_before m.product_info))),
  read_text-codes m.country (codes_before m.origin (info_before m.product_info)),
  read_text-codes m.origin (info_before m.product_info),
  read_info-before m.product_info,
)

read_time : (time : Option ℕ) (rest : List ℕ) → read (time_before time rest) ≡ read_body time rest
read_time none rest = refl
read_time (some t) rest = refl

abbrev time_or_zero : Option ℕ → ℕ
time_or_zero none = 0
time_or_zero (some t) = t

marshalled :
    (m : PbUserTag ℕ) (bytes : List ℕ)
    → ok (time_before m.time (body m)) ≡ ok bytes
    → bytes ≡ time_before m.time (body m)
marshalled m bytes is = cc

abbrev pub wire : Protobuf
wire = record {
  Timestamp = ℕ;
  new = λ t. t;
  as_time = time_or_zero;
  marshal = λ m. ok (time_before m.time (body m));
  unmarshal = read;
}

pub wire_laws : ProtobufLaws wire
wire_laws = record {
  as_time-new = λ t. refl;
  marshal_total = λ m. (time_before m.time (body m), refl);
  unmarshal-marshal =
      λ m bytes is. ap read (marshalled m bytes is) ∙ read_time m.time (body m) ∙ read_body-body m;
}
