-- ===== src/Transfer/Response.antt =====
-- PoolerTran/src/poolertran/poller.py, lines 41-136: what the poller reads out of a REST response.
-- A number of the response is a float already (an integer too large for one is not modelled).
use dust_monitoring.Prelude.{
  Bool, true, false, not, Option, none, some, [], if◌then◌else◌, Text, codes, equal,
}
use dust_monitoring.Transfer.Floats.{Floats}

mutual
  pub data Json (F : Type 0) : Type 0 where
    null : Json F
    boolean : Bool → Json F
    number : F → Json F
    text : Text → Json F
    array : Jsons F → Json F
    object : Fields F → Json F

  pub data Jsons (F : Type 0) : Type 0 where
    nil : Jsons F
    cons : Json F → Jsons F → Jsons F

  pub data Fields (F : Type 0) : Type 0 where
    end : Fields F
    field : Text → Json F → Fields F → Fields F

pub data Channel : Type 0 where
  normal abnormal : Channel

module _ {F : Type 0} where
  -- `d.get(k)`; a missing key is `None`.
  unfoldable pub get : Fields F → Text → Json F
  get end k = null
  get (field j v fs) k = if equal j k then v else get fs k

module _ {F : Type 0} ⦃fl : Floats F⦄ where
  -- `bool(v)`
  unfoldable pub truthy : Json F → Bool
  truthy null = false
  truthy (boolean b) = b
  truthy (number x) = not (fl.is_zero x)
  truthy (text []) = false
  truthy (array nil) = false
  truthy (object end) = false
  truthy _ = true

  -- `a or b`
  abbrev pub or_else : Json F → Json F → Json F
  or_else a b = if truthy a then a else b

  -- `float(v)`; `none` is `TypeError` or `ValueError`.
  unfoldable pub to_float : Json F → Option F
  to_float (number x) = some x
  to_float (boolean b) = some (fl.of_bool b)
  to_float (text s) = fl.of_text s
  to_float _ = none

  abbrev pub or_null : Option F → Json F
  or_null none = null
  or_null (some x) = number x

  unfoldable pub one_result : Json F → Json F
  unfolding to_float get
  one_result (array (cons x _)) = or_null (to_float x)
  one_result (object fs) = or_null (to_float (get fs (codes "score")))
  one_result elem = or_null (to_float elem)

  abbrev pub extract_score_image : Json F → Json F × Json F
  extract_score_image (object fs) =
      (get fs (codes "score"), or_else (get fs (codes "image_path")) (get fs (codes "file_path")))
  extract_score_image _ = (null, null)

  -- The static and the dynamic score; `null` is `None`.
  unfoldable pub extract_dual : Json F → Json F × Json F
  unfolding one_result get
  extract_dual (array (cons a (cons b _))) = (one_result a, one_result b)
  extract_dual (array (cons a nil)) = (one_result a, one_result a)
  extract_dual (object fs) = let (score, image) = extract_score_image (object fs) in (score, score)
  extract_dual _ = (null, null)

  -- `value > threshold` raises `TypeError` (`none`) for a value that is no number.
  unfoldable pub classify : Json F → Option F → Option Channel
  classify null threshold = some normal
  classify value none = some normal
  classify (number x) (some t) = some (if fl.gt x t then abnormal else normal)
  classify (boolean b) (some t) = some (if fl.gt (fl.of_bool b) t then abnormal else normal)
  classify _ (some t) = none

  abbrev path_of : Fields F → Json F
  path_of fs =
      or_else (get fs (codes "path1"))
        (or_else (get fs (codes "image_path")) (get fs (codes "file_path")))

  -- The path of the static result's first image; `null` is `None`.
  unfoldable pub static_p1 : Json F → Json F
  unfolding get truthy
  static_p1 (array (cons (array (cons _ (cons p _))) _)) = p
  static_p1 (array (cons (object fs) _)) = path_of fs
  static_p1 (object fs) = path_of fs
  static_p1 _ = null

  -- `_encode_b64` over `image`, which reads a file: its Base64 text, `some none` for `OSError`,
  -- and `none` for another exception. A path that is no text raises `TypeError`.
  unfoldable pub encode_b64 : (Text → Option (Option Text)) → Json F → Option (Option Text)
  unfolding truthy
  encode_b64 image (text []) = some none
  encode_b64 image (text p) = image p
  encode_b64 image path = if truthy path then none else some none
