-- ===== src/Http/Mux/Steps.antt =====
-- What a mux finds, pattern by pattern.
use taskflow_api.Base.{String, ◌≡◌, refl, inl, inr, Bool-cases, none, some, List, ◌∷◌, true, false}
use taskflow_api.Http.Mux.{Route, match_path, match_method, find_route, add_methods, methods_at}

module _ (q : Route) (qs : List Route) (path : List String) where
  pub skip_path :
      (method : String)
      → match_path q.segments path ≡ none
      → find_route (q ∷ qs) method path ≡ find_route qs method path
  unfolding find_route
  skip_path method missed = elim (Bool-cases (match_method q.method method)) [
    | inl e ↦ rw (e, missed) refl
    | inr e ↦ rw e refl
  ]

  pub skip_method :
      (method : String)
      → match_method q.method method ≡ false
      → find_route (q ∷ qs) method path ≡ find_route qs method path
  unfolding find_route
  skip_method method other = rw other refl

  pub found :
      (method : String) (vs : List (String × String))
      → match_method q.method method ≡ true
      → match_path q.segments path ≡ some vs
      → find_route (q ∷ qs) method path ≡ some (q, vs)
  unfolding find_route
  found method vs same matched = rw (same, matched) refl

  pub skip_methods :
      (ms : List String)
      → match_path q.segments path ≡ none
      → methods_at (q ∷ qs) path ms ≡ methods_at qs path ms
  unfolding methods_at
  skip_methods ms missed = rw (methods_at, missed) refl

  pub found_methods :
      (ms : List String) (vs : List (String × String))
      → match_path q.segments path ≡ some vs
      → methods_at (q ∷ qs) path ms ≡ add_methods q.method (methods_at qs path ms)
  unfolding methods_at
  found_methods ms vs matched = rw (methods_at, matched) refl
