-- ===== src/Mini/Environ/Puts.antt =====
-- What the script finds in its environment.
use sginx.Base.{ℕ, ◌≡◌, ap, refl, true, false, none, some, List, [], ◌∷◌, ◌++◌, All}
use sginx.Base.Run.{ok, fault}
use sginx.Mini.Request.{same_word, post_word}
use sginx.Conf.{begins_with, split_delim}
use sginx.Mini.Environ.{
  at_buf, all_given, texts, put_name, putenv, method_name, query_name, child_environ,
}

-- no string of the environment has the name
abbrev pub Lacks : (name : List ℕ) → List (List ℕ) → Type 0
Lacks name strings = All (λ s. begins_with name s ≡ false) strings

put_name-new :
    (name text : List ℕ) (strings : List (List ℕ))
    → Lacks name strings
    → put_name name text (all_given strings) ≡ all_given strings ++ at_buf ∷ []
unfolding put_name
put_name-new name text [] lacks = refl
put_name-new name text (s ∷ strings) lacks =
    rw (lacks.0, put_name-new name text strings lacks.1) refl

-- behind the strings that the process was started with, the entry of sgx_buf is replaced
put_name-again :
    (name text : List ℕ) (strings : List (List ℕ))
    → Lacks name strings
    → begins_with name text ≡ true
    → put_name name text (all_given strings ++ at_buf ∷ []) ≡ all_given strings ++ at_buf ∷ []
unfolding put_name
put_name-again name text [] lacks same = rw same refl
put_name-again name text (s ∷ strings) lacks same =
    rw (lacks.0, put_name-again name text strings lacks.1 same) refl

texts-given :
    (text : List ℕ) (strings : List (List ℕ))
    → texts text (all_given strings ++ at_buf ∷ []) ≡ strings ++ text ∷ []
texts-given text [] = refl
texts-given text (s ∷ strings) = ap (λ more. s ∷ more) (texts-given text strings)

method_new :
    (type : List ℕ) (strings : List (List ℕ))
    → Lacks method_name strings
    → putenv (method_name ++ type) (all_given strings) ≡ all_given strings ++ at_buf ∷ []
unfolding split_delim
method_new type strings lacks = put_name-new method_name (method_name ++ type) strings lacks

query_again :
    (query : List ℕ) (strings : List (List ℕ))
    → Lacks query_name strings
    → putenv (query_name ++ query) (all_given strings ++ at_buf ∷ [])
      ≡ all_given strings ++ at_buf ∷ []
unfolding split_delim
query_again query strings lacks = put_name-again query_name (query_name ++ query) strings lacks refl

-- The process was started with an environment in which neither REQUEST_METHOD nor QUERY_STRING
-- stands. A request whose method is not POST has a query, which may be empty; the script then finds
-- that environment and behind it QUERY_STRING with the query, and nothing else: no REQUEST_METHOD. A
-- POST leaves sgx_query without a value, which the child reads: that is a fault, and no script runs.
pub child_environ_exact :
    (strings : List (List ℕ)) (type : List ℕ) (contlen : ℕ) (query : List ℕ)
    → Lacks method_name strings
    → Lacks query_name strings
    → (same_word type post_word ≡ false
        → child_environ strings type contlen (some query)
          ≡ ok (strings ++ (query_name ++ query) ∷ []))
      × (same_word type post_word ≡ true → child_environ strings type contlen none ≡ fault)
child_environ_exact strings type contlen query no_method no_query = (
  (λ other.
      rw
        (
          method_new type strings no_method,
          query_again query strings no_query,
          texts-given (query_name ++ query) strings,
        )
        refl),
  (λ post. refl),
)
