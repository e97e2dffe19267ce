-- ===== src/Http/Router/Items.antt =====
-- What the mux of the tasks finds at the path of one task.
use taskflow_api.Base.{String, ◌≡◌, refl, ap, ◌∙◌, none, some, List, [], ◌∷◌, false, str_eq}
use taskflow_api.Text.{contains}
use taskflow_api.Text.Sorting.{sort_strings, insert, str_leb}
use taskflow_api.Http.Mux.{
  match_path, match_method, find_route, add_method, add_methods, methods_at, ends_in_slash,
  matching_methods, Route, literal, wildcard,
}
use taskflow_api.Http.Mux.Steps.{skip_path, skip_method, found, skip_methods, found_methods}
use taskflow_api.Http.Router.{
  create_route, list_route, get_route, update_route, delete_route, api_path, Libraries, Deps,
  protected_routes,
}

module _ (lib : Libraries) (d : Deps) where
  abbrev pub task_path : String → List String
  task_path id = "api" ∷ "v1" ∷ "tasks" ∷ id ∷ []

  item_match :
      (id : String)
      → str_eq id "" ≡ false
      → match_path (api_path (literal "tasks" ∷ wildcard "id" ∷ [])) (task_path id)
        ≡ some (("id", id) ∷ [])
  unfolding match_path
  item_match id named = rw named refl

  list_miss : (id : String) → match_path (api_path (literal "tasks" ∷ [])) (task_path id) ≡ none
  unfolding match_path
  list_miss id = refl

  below_miss :
      (id : String)
      → str_eq id "" ≡ false
      → match_path
          (api_path (literal "tasks" ∷ wildcard "id" ∷ []))
          ("api" ∷ "v1" ∷ "tasks" ∷ id ∷ "" ∷ [])
        ≡ none
  unfolding match_path
  below_miss id named = rw named refl

  abbrev deletes : List Route
  deletes = delete_route lib d ∷ []

  abbrev updates : List Route
  updates = update_route lib d ∷ deletes

  abbrev gets : List Route
  gets = get_route lib d ∷ updates

  abbrev lists : List Route
  lists = list_route lib d ∷ gets

  methods_here :
      (id : String)
      → str_eq id "" ≡ false
      → methods_at (protected_routes lib d) (task_path id) []
        ≡ "GET" ∷ "HEAD" ∷ "PUT" ∷ "DELETE" ∷ []
  unfolding methods_at add_methods add_method contains
  methods_here id named = do
    let path = task_path id
    let vs = ("id", id) ∷ []
    let matched = item_match id named
    skip_methods (create_route lib d) lists path [] (list_miss id)
        ∙ (skip_methods (list_route lib d) gets path [] (list_miss id)
            ∙ (found_methods (get_route lib d) updates path [] vs matched
                ∙ ap (add_methods "GET") (
                    found_methods (update_route lib d) deletes path [] vs matched
                    ∙ ap (add_methods "PUT")
                        (found_methods (delete_route lib d) [] path [] vs matched))))

  methods_below :
      (id : String) (ms : List String)
      → str_eq id "" ≡ false
      → methods_at (protected_routes lib d) ("api" ∷ "v1" ∷ "tasks" ∷ id ∷ "" ∷ []) ms ≡ ms
  unfolding methods_at match_path
  methods_below id ms named = do
    let path = "api" ∷ "v1" ∷ "tasks" ∷ id ∷ "" ∷ []
    let missed = below_miss id named
    skip_methods (create_route lib d) lists path ms refl
        ∙ (skip_methods (list_route lib d) gets path ms refl
            ∙ (skip_methods (get_route lib d) updates path ms missed
                ∙ (skip_methods (update_route lib d) deletes path ms missed
                    ∙ skip_methods (delete_route lib d) [] path ms missed)))

  -- The methods that a path of one task allows, sorted.
  pub allowed :
      (id : String)
      → str_eq id "" ≡ false
      → matching_methods (protected_routes lib d) (task_path id)
        ≡ "DELETE" ∷ "GET" ∷ "HEAD" ∷ "PUT" ∷ []
  unfolding matching_methods ends_in_slash sort_strings insert str_leb
  allowed id named = rw (named, methods_here id named, methods_below id _ named) refl

  -- The patterns of the collection do not match the path of one task.
  skip_lists :
      (id m : String)
      → find_route (protected_routes lib d) m (task_path id) ≡ find_route gets m (task_path id)
  skip_lists id m =
      skip_path (create_route lib d) lists (task_path id) m (list_miss id)
      ∙ skip_path (list_route lib d) gets (task_path id) m (list_miss id)

  pub find-get :
      (id : String)
      → str_eq id "" ≡ false
      → find_route (protected_routes lib d) "GET" (task_path id)
        ≡ some (get_route lib d, ("id", id) ∷ [])
  unfolding match_method
  find-get id named =
      skip_lists id "GET"
      ∙ found (get_route lib d) updates (task_path id) "GET" _ refl (item_match id named)

  pub find-put :
      (id : String)
      → str_eq id "" ≡ false
      → find_route (protected_routes lib d) "PUT" (task_path id)
        ≡ some (update_route lib d, ("id", id) ∷ [])
  unfolding match_method
  find-put id named =
      skip_lists id "PUT"
      ∙ (skip_method (get_route lib d) updates (task_path id) "PUT" refl
          ∙ found (update_route lib d) deletes (task_path id) "PUT" _ refl (item_match id named))

  pub find-delete :
      (id : String)
      → str_eq id "" ≡ false
      → find_route (protected_routes lib d) "DELETE" (task_path id)
        ≡ some (delete_route lib d, ("id", id) ∷ [])
  unfolding match_method
  find-delete id named =
      skip_lists id "DELETE"
      ∙ (skip_method (get_route lib d) updates (task_path id) "DELETE" refl
          ∙ (skip_method (update_route lib d) deletes (task_path id) "DELETE" refl
              ∙ found (delete_route lib d) [] (task_path id) "DELETE" _ refl (item_match id named)))

  pub find-other :
      (id m : String)
      → match_method "GET" m ≡ false
      → match_method "PUT" m ≡ false
      → match_method "DELETE" m ≡ false
      → find_route (protected_routes lib d) m (task_path id) ≡ none
  unfolding find_route
  find-other id m not_get not_put not_delete =
      skip_lists id m
      ∙ (skip_method (get_route lib d) updates (task_path id) m not_get
          ∙ (skip_method (update_route lib d) deletes (task_path id) m not_put
              ∙ skip_method (delete_route lib d) [] (task_path id) m not_delete))
