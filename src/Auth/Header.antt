-- ===== src/Auth/Header.antt =====
-- The bearer header.
use Prim.Native.Char.{Char}
use Prim.Native.String.{◌++◌}
use text.Mathlib.TextLemmas.{cons-ne-nil}
use enterprise_workflow_plat.Common.{
  String, ok, ◌≡◌, refl, ◌∙◌, ap, arith, eq_iff, true, false, [], ◌∷◌, ◌≢◌, ◌==◌,
}
use enterprise_workflow_plat.Common.Texts.{fields-two, NoSpace, is_space, equal_fold}
use enterprise_workflow_plat.Auth.{bearer, bearer_of}

bearer_of-two :
    (scheme token : String)
    → equal_fold scheme "Bearer" ≡ true
    → (token == "") ≡ false
    → bearer_of (scheme ∷ token ∷ []) ≡ ok token
unfolding bearer_of
bearer_of-two scheme token e f = rw (e, bearer_of, f) refl

equal_fold-nil : equal_fold "" "Bearer" ≢ true
unfolding equal_fold
equal_fold-nil e = cc

space_is : is_space " " ≡ true
unfolding is_space
space_is = refl

-- `bearer` finds the token in a header made of the word `bearer`, in any case, one space and the
-- token, when the token is not empty and has no space in it.
pub bearer_token :
    (scheme : String) (c : Char) (token : String)
    → equal_fold scheme "Bearer" ≡ true
    → NoSpace scheme
    → NoSpace (String.◌∷◌ c token)
    → bearer (scheme ++ String.◌∷◌ " " (String.◌∷◌ c token)) ≡ ok (String.◌∷◌ c token)
unfolding bearer
bearer_token String.[] c token e h k = absurd (equal_fold-nil e)
bearer_token (String.◌∷◌ d scheme) c token e h k =
    ap bearer_of (fields-two d c scheme token " " h k space_is)
    ∙ bearer_of-two (String.◌∷◌ d scheme) (String.◌∷◌ c token) e
        (ground (arith, eq_iff (String.◌∷◌ c token) "", cons-ne-nil c token))
