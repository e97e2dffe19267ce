-- ===== src/Store/Respects.antt =====
-- What every action does to the tables, as a relation between the tables before and after it: one
-- rule for each way to build an action. The other clients are bound by the same relation.
use taskflow_api.Base.{ℕ, suc, ◌≡◌, refl, Bool, true, false, if◌then◌else◌}
use taskflow_api.Domain.{Instant}
use taskflow_api.Domain.Errors.{Error, Result, ok, err}
use taskflow_api.Store.{
  settle, continue, Tables, Env, Fault, works, refused, lost, World, Io, ◌>>=◌, return, raise,
  map_err, Statement, exec,
}

pub record Respects (R : Tables → Tables → Type 0) {A : Type 0} (m : Io A) : Type 0 where
  pub at : (w : World) → R w.tables (m w).1.tables

pub record IsPreorder (R : Tables → Tables → Type 0) : Type 0 where
  pub reflexive : (t : Tables) → R t t
  pub transitive : (t u v : Tables) → R t u → R u v → R t v

-- An invariant, as a relation.
abbrev pub Keeping : (Tables → Type 0) → Tables → Tables → Type 0
Keeping P t u = P t → P u

pub Keeping-IsPreorder : (P : Tables → Type 0) → IsPreorder (Keeping P)
Keeping-IsPreorder P = record { reflexive = λ t p. p; transitive = λ t u v f g p. g (f p) }

module _ {R : Tables → Tables → Type 0} (o : IsPreorder R) where
  module _ {A : Type 0} where
    pub Respects-return : (a : A) → Respects R (return a)
    Respects-return a = record { at = λ w. o.reflexive w.tables }

    pub Respects-raise : (e : Error) → Respects R (raise {A = A} e)
    Respects-raise e = record { at = λ w. o.reflexive w.tables }

    -- An action that leaves the tables alone.
    pub Respects-pure : (m : Io A) → ((w : World) → (m w).1.tables ≡ w.tables) → Respects R m
    Respects-pure m same = record { at = λ w. rw same (o.reflexive w.tables) }

    pub Respects-map_err : (f : Error → Error) (m : Io A) → Respects R m → Respects R (map_err f m)
    unfolding map_err
    Respects-map_err f m r = record { at = r.at }

    pub Respects-if :
        (b : Bool) (m n : Io A) → Respects R m → Respects R n → Respects R (if b then m else n)
    Respects-if true m n p q = p
    Respects-if false m n p q = q

    Respects-settle :
        (f : Fault) (r : Result A) (before start after : Tables) (n : ℕ)
        → R start before
        → R before after
        → R start (settle f (r, after) before n).1.tables
    Respects-settle works r before start after n p q = o.transitive start before after p q
    Respects-settle (refused text) r before start after n p q = p
    Respects-settle (lost text) r before start after n p q = o.transitive start before after p q

    -- A statement that the relation allows, between statements of clients that it binds.
    pub Respects-exec :
        (env : Env)
        → ((n : ℕ) (t : Tables) → R t (env.others n t))
        → (statement : Statement A) → ((now : Instant) (t : Tables) → R t (statement now t).1)
        → Respects R (exec env statement)
    unfolding exec
    Respects-exec env rely statement allowed = record {
      at = λ w.
          Respects-settle (env.fault w.step)
            (statement (env.db_now w.step) (env.others w.step w.tables)).0
            (env.others w.step w.tables) w.tables
            (statement (env.db_now w.step) (env.others w.step w.tables)).1 (suc w.step)
            (rely w.step w.tables) (allowed (env.db_now w.step) (env.others w.step w.tables));
    }

  module _ {A B : Type 0} where
    Respects-continue :
        (t : Tables) (r : Result A) (w : World) (f : A → Io B)
        → R t w.tables
        → ((a : A) → r ≡ ok a → Respects R (f a))
        → R t (continue (r, w) f).1.tables
    Respects-continue t (ok a) w f p q = o.transitive t w.tables _ p ((q a refl).at w)
    Respects-continue t (err e) w f p q = p

    pub Respects-bind :
        (m : Io A) (f : A → Io B)
        → Respects R m
        → ((a : A) → Respects R (f a))
        → Respects R (m >>= f)
    unfolding ◌>>=◌
    Respects-bind m f p q = record {
      at = λ w. Respects-continue w.tables (m w).0 (m w).1 f (p.at w) (λ a _. q a);
    }

pub ruleset respects_rules =
    (Respects-return, Respects-raise, Respects-map_err, Respects-if, Respects-bind)
