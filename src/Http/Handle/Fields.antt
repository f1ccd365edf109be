-- ===== src/Http/Handle/Fields.antt =====
-- sgx_http_handle_header of src/http/http_request.c.
use sginx.Base.{
  ℕ, ◌≡◌, refl, ap, ◌∙◌, Bool, true, false, not, ◌&&◌, ◌||◌, Option, none, some, List, [], ◌∷◌,
  ◌==◌, if◌then◌else◌, Bool-cases, inl, inr, All,
}
use sginx.Base.Run.{ok}
use sginx.Http.{Header, Request}
use sginx.Http.Handle.{
  Out, same_text, identity, lower, host_name, connection_name, if_modified_since_name,
  keep_alive_text, bytes_from, distance, process, process_connection, compare_time, dispatch,
  handle_one, handle_list, handle_header,
}

-- the header's four pointers are set
pub data IsPlaced : Header → Type 0 where
  placed :
      (first last from behind : ℕ)
      → IsPlaced (record {
        key_start = some first;
        key_end = some last;
        value_start = some from;
        value_end = some behind;
      })

-- whether the text between two pointers is taken for the name
abbrev pub text_is : (ℕ → ℕ) → Request → List ℕ → Option ℕ → Option ℕ → Bool
text_is fold r name (some first) (some last) =
    same_text fold (distance first last) (bytes_from r first) name
text_is fold r name _ _ = false

abbrev pub key_is : Request → List ℕ → Header → Bool
key_is r name h = text_is identity r name h.key_start h.key_end

-- the header asks to keep the connection
abbrev pub asks_keep_alive : Request → Header → Bool
asks_keep_alive r h =
    not (key_is r host_name h)
    && key_is r connection_name h
    && text_is lower r keep_alive_text h.value_start h.value_end

abbrev is_time : ℕ → Option ℕ → Bool
is_time mtime none = false
is_time mtime (some time) = mtime == time

abbrev time_of : ((ℕ → ℕ) → Option ℕ) → Request → Option ℕ → Option ℕ
time_of client_time r none = none
time_of client_time r (some first) = client_time (bytes_from r first)

-- the header names the time of the file's last change
abbrev pub names_time : ((ℕ → ℕ) → Option ℕ) → Request → ℕ → Header → Bool
names_time client_time r mtime h =
    not (key_is r host_name h)
    && not (key_is r connection_name h)
    && key_is r if_modified_since_name h
    && is_time mtime (time_of client_time r h.value_start)

abbrev pub any_of : (Header → Bool) → List Header → Bool
any_of test [] = false
any_of test (h ∷ hs) = test h || any_of test hs

-- what the headers make of the answer
abbrev pub answered : ((ℕ → ℕ) → Option ℕ) → Request → Out → List Header → Out
answered client_time r out hs = record out {
  keep_alive = if any_of (asks_keep_alive r) hs then 1 else out.keep_alive;
  modified = if any_of (names_time client_time r out.mtime) hs then 0 else out.modified;
}

choose :
    (x y : Bool) (n m : ℕ)
    → (if y then n else if x || false then n else m) ≡ (if x || y then n else m)
choose true true n m = refl
choose true false n m = refl
choose false true n m = refl
choose false false n m = refl

or_false : (b : Bool) → b || false ≡ b
or_false true = refl
or_false false = refl

module _ (client_time : (ℕ → ℕ) → Option ℕ) where
  compare_time_lem :
      (out : Out) (time : Option ℕ)
      → compare_time client_time out time
        ≡ record out { modified = if is_time out.mtime time then 0 else out.modified }
  compare_time_lem out none = refl
  compare_time_lem out (some time) = elim (Bool-cases (out.mtime == time)) [
    | inl e ↦ rw e refl
    | inr e ↦ rw e refl
  ]

  handle_one_lem :
      (r : Request) (out : Out) (h : Header)
      → IsPlaced h
      → handle_one client_time r out h h.key_start h.key_end
        ≡ ok (answered client_time r out (h ∷ []))
  unfolding dispatch process process_connection
  handle_one_lem r out h (placed first last from behind) =
      elim (Bool-cases (same_text identity (distance first last) (bytes_from r first) host_name)) [
        | inl e ↦ rw e refl
        | inr e ↦
            elim (Bool-cases
              (same_text identity (distance first last) (bytes_from r first) connection_name)) [
                | inl e1 ↦
                    elim (Bool-cases (
                      same_text lower (distance from behind) (bytes_from r from) keep_alive_text)) [
                        | inl e2 ↦ rw (e, e1, e2) refl
                        | inr e2 ↦ rw (e, e1, e2) refl
                      ]
                | inr e1 ↦
                    elim (Bool-cases (
                      same_text identity (distance first last) (bytes_from r first)
                        if_modified_since_name)) [
                          | inl e2 ↦
                              rw (e, e1, e2, compare_time_lem out (client_time (bytes_from r from)))
                                (rw (or_false (is_time out.mtime (client_time (bytes_from r from))))
                                  refl)
                          | inr e2 ↦ rw (e, e1, e2) refl
                        ]
              ]
      ]

  answered_cons :
      (r : Request) (out : Out) (h : Header) (hs : List Header)
      → answered client_time r (answered client_time r out (h ∷ [])) hs
        ≡ answered client_time r out (h ∷ hs)
  answered_cons r out h hs =
      rw
        (
          choose (asks_keep_alive r h) (any_of (asks_keep_alive r) hs) 1 out.keep_alive,
          choose (names_time client_time r out.mtime h)
              (any_of (names_time client_time r out.mtime) hs) 0 out.modified,
        )
        refl

  handle_list_lem :
      (hs : List Header) (r : Request) (out : Out)
      → All IsPlaced hs
      → handle_list client_time hs (record r { list = hs }) out
        ≡ ok (record r { list = [] }, answered client_time r out hs)
  unfolding handle_list
  handle_list_lem [] r out all = refl
  handle_list_lem (h ∷ hs) r out all =
      rw (handle_one_lem (record r { list = h ∷ hs }) out h all.0) (
        handle_list_lem hs r (answered client_time r out (h ∷ [])) all.1
        ∙ ap (λ o. ok (record r { list = [] }, o)) (answered_cons r out h hs))

  -- Where the pointers of the headers are set, sgx_http_handle_header returns with the list empty
  -- and the rest of the request as it was. `keep_alive` is set to 1 if some header is taken for
  -- Connection and its value for keep-alive, `modified` is set to 0 if some header is taken for
  -- If-Modified-Since and gives the time `mtime`, and no other field of the answer changes:
  -- `status` stays what it was.
  pub handle_header_exact :
      (r : Request) (out : Out)
      → All IsPlaced r.list
      → handle_header client_time r out
        ≡ ok (record r { list = [] }, answered client_time r out r.list)
  unfolding handle_header
  handle_header_exact r out all = handle_list_lem r.list r out all
