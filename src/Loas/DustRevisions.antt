-- ===== src/Loas/DustRevisions.antt =====
-- The two spellings of the tags that SocketDaim/libs/gw_proto/gw_proto/codec/loas/dust_xml.py reads.
use dust_monitoring.Prelude.{
  ◌≡◌, refl, ap, sym, ◌∙◌, Bool, true, false, Option, none, some, List, [], ◌∷◌, map, any, arith,
  if◌then◌else◌, Text, codes, equal, equal_iff, equal_sym, equal_to, Bool-cases, Option-cases, inl,
  inr,
}
use mathlib.Core.Path.{fun_ext}
use dust_monitoring.Loas.DustXml.{
  raises, wrong_root, non_empty, Element, Python, get_text, payload_of, parse_element, either,
}

abbrev pub Node : Type 0
Node = Text × Option Text

-- The tags that the second revision has corrected.
unfoldable pub corrected : Text → Text
unfolding equal
corrected tag =
    if equal tag (codes "DUST_ALRAM")
    then codes "DUST_ALARM"
    else if equal tag (codes "INSPECTION_LOACL_ID")
    then codes "INSPECTION_LOCAL_ID"
    else tag

abbrev pub corrected_part : Element → Element
corrected_part e = record e { children = map (λ n. (corrected n.0, n.1)) e.children }

abbrev pub has_tag : Text → List Node → Bool
has_tag tag nodes = any (λ n. equal n.0 tag) nodes

abbrev renamed : (Text → Option Text) → Text → Option Text
renamed get tag =
    if equal tag (codes "DUST_ALARM")
    then get (codes "DUST_ALRAM")
    else if equal tag (codes "INSPECTION_LOCAL_ID")
    then get (codes "INSPECTION_LOACL_ID")
    else if equal tag (codes "DUST_ALRAM")
    then none
    else if equal tag (codes "INSPECTION_LOACL_ID")
    then none
    else get tag

either-none : {F : Type 0} (py : Python F) (x : Option Text) → either py x none ≡ either py none x
either-none py none = refl
either-none py (some t) = elim (Option-cases (non_empty (py.strip t))) [
  | inl e ↦ ground (arith, e)
  | inr (u, e) ↦ ground (arith, e)
]

payload_of-renamed :
    {F : Type 0} (py : Python F) (get : Text → Option Text)
    → get (codes "DUST_ALARM") ≡ none
    → get (codes "INSPECTION_LOCAL_ID") ≡ none
    → payload_of py (renamed get) ≡ payload_of py get
unfolding payload_of equal
payload_of-renamed py get a b = rw a (
    rw b (
      rw (either-none py (get (codes "DUST_ALRAM")))
        (rw (either-none py (get (codes "INSPECTION_LOACL_ID"))) refl)))

abbrev pub alarm : Text
alarm = codes "DUST_ALARM"

abbrev alram : Text
alram = codes "DUST_ALRAM"

abbrev pub local : Text
local = codes "INSPECTION_LOCAL_ID"

abbrev loacl : Text
loacl = codes "INSPECTION_LOACL_ID"

abbrev corrected_nodes : List Node → List Node
corrected_nodes nodes = map (λ n. (corrected n.0, n.1)) nodes

-- What `corrected` makes of a tag, as far as a test for another tag sees it.
corrected-alarm : (t : Text) → equal t alarm ≡ false → equal (corrected t) alarm ≡ equal t alram
unfolding corrected equal
corrected-alarm t h = elim (Bool-cases (equal t alram)) [
  | inl e ↦ rw e refl
  | inr e ↦ elim (Bool-cases (equal t loacl)) [ inl f ↦ rw e (rw f refl) | inr f ↦ rw e (rw f h) ]
]

corrected-local : (t : Text) → equal t local ≡ false → equal (corrected t) local ≡ equal t loacl
unfolding corrected equal
corrected-local t h = elim (Bool-cases (equal t alram)) [
  | inl e ↦ rw e (sym (equal_to t alram loacl e))
  | inr e ↦ elim (Bool-cases (equal t loacl)) [ inl f ↦ rw e (rw f refl) | inr f ↦ rw e (rw f h) ]
]

corrected-alram : (t : Text) → equal (corrected t) alram ≡ false
unfolding corrected equal
corrected-alram t = elim (Bool-cases (equal t alram)) [
  | inl e ↦ rw e refl
  | inr e ↦ elim (Bool-cases (equal t loacl)) [ inl f ↦ rw e (rw f refl) | inr f ↦ rw e (rw f e) ]
]

corrected-loacl : (t : Text) → equal (corrected t) loacl ≡ false
unfolding corrected equal
corrected-loacl t = elim (Bool-cases (equal t alram)) [
  | inl e ↦ rw e refl
  | inr e ↦ elim (Bool-cases (equal t loacl)) [ inl f ↦ rw e (rw f refl) | inr f ↦ rw e (rw f f) ]
]

not_other :
    (t new old tag : Text)
    → equal t old ≡ true
    → equal tag new ≡ false
    → equal tag old ≡ false
    → equal new tag ≡ equal t tag
not_other t new old tag e a c =
    equal_sym new tag ∙ a ∙ sym (equal_to t old tag e ∙ equal_sym old tag ∙ c)

corrected-other :
    (t tag : Text)
    → equal tag alarm ≡ false
    → equal tag local ≡ false
    → equal tag alram ≡ false
    → equal tag loacl ≡ false
    → equal (corrected t) tag ≡ equal t tag
unfolding corrected
corrected-other t tag a b c d = elim (Bool-cases (equal t alram)) [
  | inl e ↦ rw e (not_other t alarm alram tag e a c)
  | inr e ↦ elim (Bool-cases (equal t loacl)) [
    | inl f ↦ rw e (rw f (not_other t local loacl tag f b d))
    | inr f ↦ rw e (rw f refl)
  ]
]

get_text-alarm :
    (nodes : List Node)
    → has_tag alarm nodes ≡ false
    → get_text (corrected_nodes nodes) alarm ≡ get_text nodes alram
unfolding get_text
get_text-alarm [] h = refl
get_text-alarm ((t, x) ∷ nodes) h =
    ground (arith, corrected-alarm t (ground (arith, h)), get_text-alarm nodes (ground (arith, h)))

get_text-local :
    (nodes : List Node)
    → has_tag local nodes ≡ false
    → get_text (corrected_nodes nodes) local ≡ get_text nodes loacl
unfolding get_text
get_text-local [] h = refl
get_text-local ((t, x) ∷ nodes) h =
    ground (arith, corrected-local t (ground (arith, h)), get_text-local nodes (ground (arith, h)))

get_text-alram : (nodes : List Node) → get_text (corrected_nodes nodes) alram ≡ none
unfolding get_text
get_text-alram [] = refl
get_text-alram ((t, x) ∷ nodes) = rw (corrected-alram t) (get_text-alram nodes)

get_text-loacl : (nodes : List Node) → get_text (corrected_nodes nodes) loacl ≡ none
unfolding get_text
get_text-loacl [] = refl
get_text-loacl ((t, x) ∷ nodes) = rw (corrected-loacl t) (get_text-loacl nodes)

get_text-other :
    (nodes : List Node) (tag : Text)
    → equal tag alarm ≡ false
    → equal tag local ≡ false
    → equal tag alram ≡ false
    → equal tag loacl ≡ false
    → get_text (corrected_nodes nodes) tag ≡ get_text nodes tag
unfolding get_text
get_text-other [] tag a b c d = refl
get_text-other ((t, x) ∷ nodes) tag a b c d =
    rw (corrected-other t tag a b c d) (rw (get_text-other nodes tag a b c d) refl)

get_text-corrected :
    (nodes : List Node) (tag : Text)
    → has_tag alarm nodes ≡ false
    → has_tag local nodes ≡ false
    → get_text (corrected_nodes nodes) tag ≡ renamed (get_text nodes) tag
get_text-corrected nodes tag h l =
    let at : (a : Text)
        → equal tag a ≡ true
        → get_text (corrected_nodes nodes) tag ≡ get_text (corrected_nodes nodes) a =
      λ a e. ap (get_text (corrected_nodes nodes)) (ground (arith, e, equal_iff tag a)) in
    elim (Bool-cases (equal tag alarm)) [
      | inl e ↦ rw e (at alarm e ∙ get_text-alarm nodes h)
      | inr e ↦ elim (Bool-cases (equal tag local)) [
        | inl f ↦ rw e (rw f (at local f ∙ get_text-local nodes l))
        | inr f ↦ elim (Bool-cases (equal tag alram)) [
          | inl g ↦ rw e (rw f (rw g (at alram g ∙ get_text-alram nodes)))
          | inr g ↦ elim (Bool-cases (equal tag loacl)) [
            | inl k ↦ rw e (rw f (rw g (rw k (at loacl k ∙ get_text-loacl nodes))))
            | inr k ↦ rw e (rw f (rw g (rw k (get_text-other nodes tag e f g k))))
          ]
        ]
      ]
    ]

get_text-absent :
    (nodes : List Node) (tag : Text) → has_tag tag nodes ≡ false → get_text nodes tag ≡ none
unfolding get_text
get_text-absent [] tag h = refl
get_text-absent ((t, x) ∷ nodes) tag h =
    ground (arith, h, get_text-absent nodes tag (ground (arith, h)))

-- An element that has neither of the two corrected tags is parsed to what it is parsed to, be it a
-- payload or an error, once its misspelt tags are corrected.
pub parse_element-corrected_part :
    {F : Type 0} (py : Python F) (e : Element)
    → has_tag alarm e.children ≡ false
    → has_tag local e.children ≡ false
    → parse_element py (corrected_part e) ≡ parse_element py e
unfolding parse_element
parse_element-corrected_part py e h l =
    ap (λ p. if equal e.tag (codes "ELEMENT") then p else raises wrong_root)
      (ap (payload_of py) (fun_ext (λ tag. get_text-corrected e.children tag h l))
        ∙ payload_of-renamed py (get_text e.children) (get_text-absent e.children alarm h)
            (get_text-absent e.children local l))
