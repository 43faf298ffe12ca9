-- ===== src/StatusHttp/Public.antt =====
-- What a client of src/runpod_jobrunner/status_http.py learns of the stored status.
use runpod_jobrunner.Prelude.{
  ◌≡◌, refl, String, Option, none, some, true, false, ◌==◌, eq_iff, arith,
}
use runpod_jobrunner.Prelude.Text.{drop_chars}
use package.text.Mathlib.Text.{starts_with}
use runpod_jobrunner.Json.{Json, text, Fields}
use runpod_jobrunner.StatusHttp.Project.{Numbers, public_status}
use runpod_jobrunner.StatusHttp.Serve.{
  Stored, Response, Writer, do_get, write_json, supplied_token, served, projected, unavailable,
  undecodable, not_json, loaded,
}

module _ (writer : Writer) (numbers : Numbers) (token path authorization : String)
    (nonempty : (token == "") ≡ false) where
  -- the header is the scheme, followed by exactly the token
  abbrev pub IsAuthorized : Type 0
  IsAuthorized =
      (path ≡ "/status")
      × (starts_with authorization "Bearer " ≡ true)
      × (drop_chars 7 authorization ≡ token)

  -- a response past both guards
  admitted :
      (stored : Stored) (response : Response)
      → do_get writer numbers token path authorization stored ≡ some response
      → response.status_code ≡ 200
      → IsAuthorized × (served writer numbers stored ≡ some response)
  unfolding do_get supplied_token write_json
  admitted stored response h c = grind (arith, eq_iff)

  projection :
      (stored : Stored) (response : Response)
      → served writer numbers stored ≡ some response
      → response.status_code ≡ 200
      → (status : Json) × (public : Fields) × (stored ≡ loaded status)
        × (public_status numbers status ≡ some public)
        × (response ≡ write_json writer 200 public)
  unfolding write_json
  projection unavailable response h c = absurd (ground arith)
  projection undecodable response h c = absurd (ground arith)
  projection not_json response h c = absurd (ground arith)
  projection (loaded status) response h c = shown (public_status numbers status) refl h
    where
      shown :
          (given : Option Fields)
          → public_status numbers status ≡ given
          → some (projected writer given) ≡ some response
          → (value : Json) × (public : Fields) × (loaded status ≡ loaded value)
            × (public_status numbers value ≡ some public)
            × (response ≡ write_json writer 200 public)
      shown none q k = absurd (ground arith)
      shown (some public) q k = (status, public, refl, q, ground arith)

  -- With a token that is not empty, a GET is answered 200 only on the path `/status` with the header
  -- `Bearer ` followed by exactly the token; the stored status is then a value that projects, and the
  -- response carries its projection.
  pub do_get-IsAuthorized :
      (stored : Stored) (response : Response)
      → do_get writer numbers token path authorization stored ≡ some response
      → response.status_code ≡ 200
      → IsAuthorized
        × ((status : Json) × (public : Fields) × (stored ≡ loaded status)
            × (public_status numbers status ≡ some public)
            × (response ≡ write_json writer 200 public))
  do_get-IsAuthorized stored response h c =
      let (authorized, shown) = admitted stored response h c in
      (authorized, projection stored response shown c)

  -- With a token that is not empty, a client without that authorization gets the same answer whatever
  -- is stored.
  pub do_get-unauthorized :
      (IsAuthorized → ⊥)
      → (stored other : Stored)
      → do_get writer numbers token path authorization stored
        ≡ do_get writer numbers token path authorization other
  unfolding do_get supplied_token
  do_get-unauthorized u stored other = grind (arith, eq_iff)
