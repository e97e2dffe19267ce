-- ===== src/Tests/Sample.antt =====
-- The process of the tests, and a database with a user, a task and a session.
use taskflow_api.Base.{
  ◌==◌, ℕ, String, refl, true, none, some, List, [], ◌∷◌, arith, str_eq, if◌then◌else◌, pos, eq_ℤ,
}
use taskflow_api.Domain.{Task, User, RefreshToken, pending}
use taskflow_api.Domain.Errors.{other, ok}
use taskflow_api.Store.{Tables, Env, works, World}
use Prim.Native.Char.{code}
use taskflow_api.Store.Quiet.{IsQuiet}
use taskflow_api.Service.Tokens.{Jwt}
use taskflow_api.Service.RefreshTokens.{Crypto}
use taskflow_api.Repository.Evolution.{Evolves, Evolves-IsPreorder}
use taskflow_api.Repository.Consistency.{IsConsistent}
use taskflow_api.Sql.{exists_row}
use taskflow_api.Server.{Deployment}
use taskflow_api.Tests.Ordering.{by_creation}

abbrev pub env : Env
env = record {
  fault = λ n. works;
  affected_fault = λ n. none;
  scan_fault = λ n i. none;
  rows_fault = λ n. none;
  others = λ n t. t;
  db_now = λ n. pos n;
  app_now = λ n. pos n;
  stored = λ t. t;
  order = λ n ks. by_creation ks;
  message = λ code. code;
  random = λ n count. ok (n ∷ 7 ∷ 200 ∷ []);
}

pub env-IsQuiet : IsQuiet env
env-IsQuiet = record {
  working = λ n. refl;
  counting = λ n. refl;
  scanning = λ n i. refl;
  iterating = λ n. refl;
  alone = λ n t. refl;
}

abbrev codes : String → List ℕ
codes String.[] = []
codes (String.◌∷◌ c s) = code c ∷ codes s

-- A hash that keeps the text, and one that keeps the codes of its characters.
abbrev pub crypto : Crypto
crypto = record {
  generate_from_password = λ salt password. ok password;
  compare_hash_and_password = λ hash password.
      if str_eq hash password then none else some (other "hashedPassword is not the hash");
  sha256_sum = codes;
}

-- A token that is its subject, which the library takes for valid.
abbrev pub jwt : Jwt
jwt = record {
  numeric_date = λ t. t;
  signed_string = λ secret claims. ok claims.subject;
  parse_with_claims =
      λ now token key. ok (record { subject = token; issued_at = now; expires_at = now }, true);
}

abbrev pub process : Deployment
process = record {
  env = env;
  crypto = crypto;
  jwt = jwt;
  jwt_secret = "secret";
  jwt_expires_in = pos 900;
  refresh_token_ttl = pos 10000;
}

pub process-Rely : (n : ℕ) (t : Tables) → Evolves t (process.env.others n t)
process-Rely n t = Evolves-IsPreorder.reflexive t

abbrev pub empty : Tables
empty = record {
  users = [];
  tasks = [];
  refresh_tokens = [];
  next_user = 1;
  next_task = 1;
  next_token = 1;
}

abbrev pub fresh : World
fresh = record { tables = empty; step = 0 }

abbrev pub user : User
user = record { id = pos 1; email = "a@b"; password_hash = "password"; created_at = pos 0 }

abbrev pub task : Task
task = record {
  id = pos 1;
  user_id = pos 1;
  title = "write";
  description = "";
  status = pending;
  due_date = none;
  created_at = pos 0;
  updated_at = pos 0;
}

-- A live token whose plaintext is "tok".
abbrev pub token : RefreshToken
token = record {
  id = pos 1;
  user_id = pos 1;
  token_hash = "746f6b";
  expires_at = pos 5000;
  revoked_at = none;
  created_at = pos 0;
}

abbrev pub stocked : World
stocked = record {
  tables = record {
    users = user ∷ [];
    tasks = task ∷ [];
    refresh_tokens = token ∷ [];
    next_user = 2;
    next_task = 2;
    next_token = 2;
  };
  step = 0;
}

-- The token was used before.
abbrev pub spent : World
spent = record stocked {
  tables = record stocked.tables {
    refresh_tokens = record token { revoked_at = some (pos 0) } ∷ [];
  };
}

pub IsConsistent-stocked : IsConsistent stocked.tables
unfolding exists_row eq_ℤ
IsConsistent-stocked = record {
  users = record { ids = (tt, tt); sequence = (omega arith, tt) };
  emails = (tt, tt);
  tasks = record { ids = (tt, tt); sequence = (omega arith, tt) };
  task_owners = (refl, tt);
  tokens = record { ids = (tt, tt); sequence = (omega arith, tt) };
  hashes = (tt, tt);
  token_owners = (refl, tt);
}

-- A process whose database revokes the token between the two statements of a refresh.
abbrev pub raced : Deployment
raced = record process { env = record env { others = λ n t. if n == 2 then spent.tables else t } }
