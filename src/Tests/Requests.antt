-- ===== src/Tests/Requests.antt =====
-- A request, its response and its decoder.
use taskflow_api.Base.{if◌then◌else◌, Option, none, [], str_eq, ℤ}
use taskflow_api.Domain.Errors.{ok}
use taskflow_api.Store.{World}
use taskflow_api.Http.Answers.{Request, Conn}
use taskflow_api.Http.Requests.{Json}

-- A decoder that knows one body.
abbrev pub json : Json
json = record {
  signup = λ body. ok (record { email = "a"; password = "password" });
  login = λ body. ok (record { email = "a@b"; password = "wrong" });
  refresh = λ body. ok (record { refresh_token = "tok" });
  logout = λ body. ok (record { refresh_token = "tok" });
  task = λ body. ok (record { title = "write"; description = ""; status = ""; due_date = none });
}

abbrev pub request_of : Option ℤ → Request
request_of user_id = record {
  method = "GET";
  path = "/api/v1/tasks/1";
  remote_addr = "10.0.0.1:5000";
  header = λ name. if str_eq name "Authorization" then "bearer 1" else "";
  path_value = λ name. "1";
  query = λ name. if str_eq name "status" then "" else "many";
  body = "{}";
  user_id = user_id;
  request_id = "id";
  tags = [];
  trace_id = none;
}

abbrev pub conn_of : World → Conn
conn_of w = record {
  writer = record { headers = []; sent = none; body = []; recorders = [] };
  world = w;
  log = [];
  access = [];
  requests_total = [];
  pattern = "";
  panic = none;
}
