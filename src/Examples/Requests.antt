-- ===== src/Examples/Requests.antt =====
-- A request without a token and the limiter, at concrete inputs.
use user_center.Base.{
  ◌<◌, ◌≤◌, ◌⊎◌, suc, ◌≡◌, refl, [], ◌++◌, some, true, false, codes, arith, inr, bytes_eq, Bytes,
}
use mathlib.Core.List.Permᴰ
use user_center.Buffer.{init, Buffer, append, contents}
use user_center.Buffer.Memory.{init-IsValid}
use user_center.World.{ok}
use user_center.Http.Request.{HttpRequest, Method, empty_request, Headers, get_header, find_header}
use user_center.Http.Context.{reset, Parsed, parse}
use user_center.Buffer.Effects.{append-IsValid, contents-append}
use user_center.Http.Context.Lines.{plain, http11}
use user_center.Http.Context.Messages.{Message, IsMessage, render, request_of}
use user_center.Main.{Answer, answer, request_callback, submits, sends}
use user_center.Main.Exchange.{missing_body, Refuses, parse-answer_no_token}
use user_center.Service.Handlers.{bearer_token}
use user_center.Main.Limits.{Limits, limit_body, request_callback_lem}
use user_center.Main.Routes.{info}
use user_center.Main.Answers.{limit_key}
use user_center.ThreadPool.{TaskPool, submit}
use user_center.Examples.ToyWorld.{toy, toy_counts, lease, empty_world, ToyState}

-- GET /user/info/, without any header.
abbrev info_request : HttpRequest
info_request = record empty_request { method = Method.get; path = codes "/user/info/" }

abbrev unsorted : Headers → Headers
unsorted headers = headers

no_bearer : bearer_token info_request ≡ []
unfolding bearer_token get_header bytes_eq
no_bearer = refl

abbrev no_tasks : TaskPool HttpRequest
no_tasks = record { tasks = []; stop = false; max_queue_size = 20 }

abbrev limit_text : Bytes
limit_text = limit_body toy lease unsorted

request_callback_lem_example :
    (v : ToyState) × (toy_counts.count v (limit_key (codes "::1"))
      ≡ suc (toy_counts.count empty_world (limit_key (codes "::1"))))
    × (((toy_counts.count empty_world (limit_key (codes "::1")) < 60)
          × (request_callback toy lease unsorted (codes "::1") info_request no_tasks empty_world
              ≡ (ok (submits (submit info_request no_tasks)), v)))
        ⊎ ((60 ≤ toy_counts.count empty_world (limit_key (codes "::1")))
            × ((sent : Bytes) × (request_callback toy lease unsorted
                    (codes "::1")
                    info_request
                    no_tasks
                    empty_world
                  ≡ (ok (sends sent), v))
                × Limits sent limit_text [])))
request_callback_lem_example =
    request_callback_lem toy lease unsorted toy_counts (λ hs. Permᴰ.refl hs) (codes "::1")
      info_request no_tasks limit_text [] empty_world refl (omega arith)

-- The request for the user's information as a client writes it.
abbrev asks_info : Message
asks_info = record {
  method = Method.get;
  target = plain (codes "/user/info/");
  version = http11;
  headers = [];
  body = [];
}

asks_info-IsMessage : IsMessage asks_info
asks_info-IsMessage = record {
  method = refl;
  target = (refl, refl, refl);
  headers = refl;
  no_length = refl;
  body = omega arith;
}

asks_no_token : bearer_token (request_of asks_info) ≡ []
unfolding bearer_token get_header find_header bytes_eq
asks_no_token = refl

abbrev body_text : Bytes
body_text = missing_body toy lease unsorted

abbrev came_in : Buffer
came_in = append (render asks_info ++ []) (init 32)

parse-answer_no_token_example :
    (p : Parsed Buffer) × (parse reset came_in ≡ some p)
    × (p.complete ≡ true)
    × (contents p.buffer ≡ [])
    × ((a : Answer) × (answer toy lease unsorted p.context.request empty_world
          ≡ (ok a, empty_world))
        × Refuses toy lease unsorted (request_of asks_info) body_text (codes "HTTP") a)
unfolding init contents
parse-answer_no_token_example =
    parse-answer_no_token toy lease unsorted (λ hs. Permᴰ.refl hs) asks_info info came_in []
      body_text (codes "HTTP") empty_world asks_info-IsMessage (refl, inr refl) refl asks_no_token
      (append-IsValid (render asks_info ++ []) (init 32) (init-IsValid 32))
      (contents-append (render asks_info ++ []) (init 32) (init-IsValid 32)) refl (omega arith)
