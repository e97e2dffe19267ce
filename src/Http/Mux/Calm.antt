-- ===== src/Http/Mux/Calm.antt =====
-- A mux, and what its handlers have in common.
use taskflow_api.Base.{
  ℕ, String, ◌≡◌, refl, inl, inr, Bool-cases, Option, none, some, Option-cases, List, [], ◌∷◌, All,
}
use taskflow_api.Http.Answers.{text_body, set_header, Request, Conn, Handler}
use taskflow_api.Http.Observation.Calm.{
  Calm, IsCalm, IsSilent, IsUnsent, Sends-Calm, write_header-Sends, after-Calm, reheaded,
  write-Sends,
}
use taskflow_api.Text.Sorting.{join}
use taskflow_api.Http.Mux.{
  Route, match_path, match_method, find_route, redirects, http_error, serve_found, serve_mux,
  value_of, path_segments,
}

abbrev pub OnFound : (Handler → Type 0) → Option (Route × List (String × String)) → Type 0
OnFound P none = Unit
OnFound P (some (q, vs)) = P q.handler

-- What holds of every registered handler holds of the one that is found.
pub found-All :
    (P : Handler → Type 0) (qs : List Route) (method : String) (path : List String)
    → All (λ q. P q.handler) qs
    → OnFound P (find_route qs method path)
unfolding find_route
found-All P [] method path a = tt
found-All P (q ∷ qs) method path (first, rest) = elim (Bool-cases (match_method q.method method)) [
  | inr other ↦ rw other (found-All P qs method path rest)
  | inl same ↦ elim (Option-cases (match_path q.segments path)) [
    | inl missed ↦ rw (same, missed) (found-All P qs method path rest)
    | inr (vs, matched) ↦ rw (same, matched) first
  ]
]

http_error-Calm :
    (status : ℕ) (message : String) (c : Conn) → IsUnsent c → Calm c (http_error status message c)
unfolding http_error set_header
http_error-Calm status message c u = Sends-Calm status c _ refl refl u.running (
    reheaded status c.writer _ _ refl
      (write-Sends status (text_body message) _ _ (write_header-Sends status _ u.unsent)))

served-Calm :
    (o : Option (Route × List (String × String))) (methods : List String) (r : Request) (c : Conn)
    → OnFound IsCalm o
    → IsUnsent c
    → Calm c (serve_found o methods r c)
unfolding http_error set_header
served-Calm (some (q, vs)) methods r c calm u =
    after-Calm c (record c { pattern = q.pattern }) _ refl refl refl
      (calm (record r { path_value = value_of vs }) (record c { pattern = q.pattern })
        (record { unsent = u.unsent; truthful = u.truthful; running = u.running }))
served-Calm none [] r c calm u =
    after-Calm c (record c { pattern = "" }) _ refl refl refl
      (http_error-Calm 404 "404 page not found" (record c { pattern = "" })
        (record { unsent = u.unsent; truthful = u.truthful; running = u.running }))
served-Calm none (m ∷ ms) r c calm u = do
  let b = record c { pattern = ""; writer = set_header "Allow" (join ", " (m ∷ ms)) c.writer }
  after-Calm c b _ refl refl refl (
      http_error-Calm 405 "Method Not Allowed" b
        (record { unsent = u.unsent; truthful = u.truthful; running = u.running }))

served-silent :
    (o : Option (Route × List (String × String))) (methods : List String) (r : Request) (c : Conn)
    → OnFound IsSilent o
    → ((serve_found o methods r c).access ≡ c.access)
      × ((serve_found o methods r c).requests_total ≡ c.requests_total)
unfolding http_error
served-silent (some (q, vs)) methods r c silent =
    silent (record r { path_value = value_of vs }) (record c { pattern = q.pattern })
served-silent none [] r c silent = (refl, refl)
served-silent none (m ∷ ms) r c silent = (refl, refl)

pub serve_mux-IsSilent :
    (redirect : Handler) (qs : List Route)
    → IsSilent redirect
    → All (λ q. IsSilent q.handler) qs
    → IsSilent (serve_mux redirect qs)
unfolding serve_mux
serve_mux-IsSilent redirect qs silent a r c = elim (Bool-cases (redirects qs r)) [
  | inl away ↦ rw away (silent r c)
  | inr here ↦ rw here (served-silent _ _ r c (found-All IsSilent qs r.method (path_segments r) a))
]

pub serve_mux-IsCalm :
    (redirect : Handler) (qs : List Route)
    → IsCalm redirect
    → All (λ q. IsCalm q.handler) qs
    → IsCalm (serve_mux redirect qs)
unfolding serve_mux
serve_mux-IsCalm redirect qs calm a r c u = elim (Bool-cases (redirects qs r)) [
  | inl away ↦ rw away (calm r c u)
  | inr here ↦ rw here (served-Calm _ _ r c (found-All IsCalm qs r.method (path_segments r) a) u)
]
