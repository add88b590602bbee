-- ===== src/TestCommon/Image/Uris.antt =====
-- test-common/src/postgres_container: reading a version, and the name and the tag of an image.
use Prim.Native.Char.{Char, char}
use Prim.Native.String.{String, [], ◌∷◌, ◌++◌}
use text.Mathlib.Text.{◌==◌, starts_with}
use text.Mathlib.TextEquality.{eq_iff}
use text.Mathlib.TextLemmas.{nil-append, cons-append, head-eq_of_cons-eq}
use promscale_extension.Prelude.{
  ◌≡◌, ◌↔◌, ◌⊎◌, inl, inr, refl, sym, subst, ap, ap₂, ◌∙◌, false, Bool-cases, Option, none, some,
  if◌then◌else◌, Result, ok, ok_unique,
}
use promscale_extension.TestCommon.Image.{
  ImageOrigin, local, latest, master, PgVersion, v15, v14, v13, v12, try_from, fmt,
  postgres_image_uri, is_colon, split_here, rsplit_once, name_and_tag, image_name_and_tag,
}

-- One arm of the match on the text.
arm :
    (value text : String) (v version : PgVersion) (rest : Result PgVersion)
    → (if value == text then ok v else rest) ≡ ok version
    → ((value ≡ text) × (v ≡ version)) ⊎ (rest ≡ ok version)
arm value text v version rest e = elim (Bool-cases (value == text)) [
  | inl b ↦ inl ((eq_iff value text).0 b, ok_unique v version (rw b at e))
  | inr b ↦ inr (rw b at e)
]

printed :
    (value : String) (v version : PgVersion) → (value ≡ fmt v) × (v ≡ version) → value ≡ fmt version
printed value v version (e, same) = e ∙ ap fmt same

reads : (value : String) (version : PgVersion) → try_from value ≡ ok version → value ≡ fmt version
reads value version e = elim (arm value "15" v15 version _ e) [
  | inl h ↦ printed value v15 version h
  | inr e ↦ elim (arm value "14" v14 version _ e) [
    | inl h ↦ printed value v14 version h
    | inr e ↦ elim (arm value "13" v13 version _ e) [
      | inl h ↦ printed value v13 version h
      | inr e ↦ elim (arm value "12" v12 version _ e) [
        | inl h ↦ printed value v12 version h
        | inr e ↦ absurd (cc)
      ]
    ]
  ]
]

prints : (version : PgVersion) → try_from (fmt version) ≡ ok version
prints v15 = refl
prints v14 = refl
prints v13 = refl
prints v12 = refl

-- A text reads as a version exactly when it is the version as it is printed.
pub try_from-ok_iff :
    (value : String) (version : PgVersion) → (try_from value ≡ ok version) ↔ (value ≡ fmt version)
try_from-ok_iff value version = (reads value version, λ e. ap try_from e ∙ prints version)

abbrev pub colon : Char
colon = char 58 tt

-- No colon stands in a text.
abbrev pub NoColon : String → Type 0
NoColon [] = Unit
NoColon (c ∷ s) = (is_colon c ≡ false) × NoColon s

rsplit_once-none : (s : String) → NoColon s → rsplit_once s ≡ none
unfolding rsplit_once
rsplit_once-none [] h = refl
rsplit_once-none (c ∷ s) (colon, h) = rw (rsplit_once-none s h, colon) refl

rsplit_once-some :
    (name tag : String) → NoColon tag → rsplit_once (name ++ (colon ∷ tag)) ≡ some (name, tag)
unfolding rsplit_once
rsplit_once-some [] tag h =
    ap rsplit_once (nil-append (colon ∷ tag)) ∙ ap (split_here colon tag) (rsplit_once-none tag h)
rsplit_once-some (c ∷ name) tag h =
    ap rsplit_once (cons-append c name (colon ∷ tag))
    ∙ ap (split_here c (name ++ (colon ∷ tag))) (rsplit_once-some name tag h)

-- What the split says of the text.
abbrev Split : String → Option (String × String) → Type 0
Split s none = NoColon s
Split s (some (before, after)) = (s ≡ before ++ (colon ∷ after)) × NoColon after

split_here-Split :
    (c : Char) (s : String) (r : Option (String × String))
    → Split s r
    → Split (c ∷ s) (split_here c s r)
split_here-Split c s (some (before, after)) (e, h) =
    (ap (λ t. c ∷ t) e ∙ sym (cons-append c before (colon ∷ after)), h)
split_here-Split c s none h = elim (Bool-cases (is_colon c)) [
  | inl b ↦
      let same : c ≡ colon = head-eq_of_cons-eq ((eq_iff (c ∷ []) ":").0 b) in
      rw b (ap (λ d. d ∷ s) same ∙ sym (nil-append (colon ∷ s)), h)
  | inr b ↦ rw b (b, h)
]

rsplit_once-Split : (s : String) → Split s (rsplit_once s)
unfolding rsplit_once
rsplit_once-Split [] = tt
rsplit_once-Split (c ∷ s) = split_here-Split c s (rsplit_once s) (rsplit_once-Split s)

-- A name and a tag that a URI can be taken apart into.
abbrev pub ImageOf : String → String × String → Type 0
ImageOf img_uri (name, tag) =
    ((img_uri ≡ name ++ (colon ∷ tag)) × NoColon tag)
    ⊎ (NoColon img_uri × (name ≡ img_uri) × (tag ≡ "latest"))

name_and_tag-ImageOf :
    (img_uri : String) (r : Option (String × String))
    → Split img_uri r
    → ImageOf img_uri (name_and_tag img_uri r)
name_and_tag-ImageOf img_uri none h = inr (h, refl, refl)
name_and_tag-ImageOf img_uri (some (before, after)) h = inl h

ImageOf-image_name_and_tag :
    (img_uri : String) (image : String × String)
    → ImageOf img_uri image
    → image_name_and_tag img_uri ≡ image
ImageOf-image_name_and_tag img_uri (name, tag) (inl (e, h)) =
    ap image_name_and_tag e
    ∙ ap (name_and_tag (name ++ (colon ∷ tag))) (rsplit_once-some name tag h)
ImageOf-image_name_and_tag img_uri (name, tag) (inr (h, same, newest)) =
    ap (name_and_tag img_uri) (rsplit_once-none img_uri h)
    ∙ ap₂ (λ a b. (a, b)) (sym same) (sym newest)

-- The image has the name and the tag that stand before and after the last colon of the URI, and where
-- there is none the whole URI and the tag `latest`; so what stands behind the port of a registry is
-- taken for a tag if no tag is given.
pub image_name_and_tag_iff :
    (img_uri : String) (image : String × String)
    → (image_name_and_tag img_uri ≡ image) ↔ ImageOf img_uri image
image_name_and_tag_iff img_uri image = (
  λ e.
      subst (ImageOf img_uri) e
        (name_and_tag-ImageOf img_uri (rsplit_once img_uri) (rsplit_once-Split img_uri)),
  ImageOf-image_name_and_tag img_uri image,
)

-- Whether a URI belongs to an origin, and its version by the last character.
abbrev origin_of : String → ImageOrigin
origin_of uri =
    if starts_with uri "local" then local else if starts_with uri "ghcr" then master else latest

abbrev version_of : String → PgVersion
version_of uri =
    if uri == postgres_image_uri (origin_of uri) v15
    then v15
    else if uri == postgres_image_uri (origin_of uri) v14
    then v14
    else if uri == postgres_image_uri (origin_of uri) v13
    then v13
    else v12

found :
    (o : ImageOrigin) (v : PgVersion)
    → ◌≡◌ {A = ImageOrigin × PgVersion}
        (origin_of (postgres_image_uri o v), version_of (postgres_image_uri o v))
        (o, v)
found local v15 = refl
found local v14 = refl
found local v13 = refl
found local v12 = refl
found latest v15 = refl
found latest v14 = refl
found latest v13 = refl
found latest v12 = refl
found master v15 = refl
found master v14 = refl
found master v13 = refl
found master v12 = refl

-- No two origins and no two versions share an image.
pub postgres_image_uri-injective :
    (o o' : ImageOrigin) (v v' : PgVersion)
    → postgres_image_uri o v ≡ postgres_image_uri o' v'
    → (o ≡ o') × (v ≡ v')
postgres_image_uri-injective o o' v v' e =
    let same : ◌≡◌ {A = ImageOrigin × PgVersion} (o, v) (o', v') =
      sym (found o v) ∙ ap (λ u. (origin_of u, version_of u)) e ∙ found o' v' in
    (ap (λ x. x.0) same, ap (λ x. x.1) same)
