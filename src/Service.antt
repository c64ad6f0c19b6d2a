-- ===== src/Service.antt =====
-- src/magit_server.c, src/msgpack_handler.c and src/git_handler.c together: the event loop that
-- reads standard input, queues requests and writes responses. What msgpack-c reads and writes are
-- the parameters `unpack` and `write`, and `accepts` is what uv_queue_work answers for an id.
pub mod Collect
pub mod Requested
pub mod Conserve
use magit.Base.{ℕ, Bool, Option, none, some, List, [], ◌∷◌, ◌++◌, ◌≡◌, Bytes, map}
use magit.Git.Api.{Code, Git}
use magit.Git.Status.{StatusBits}
use magit.Message.{Unpacked, msgpack_handler_recv}
use magit.Message.Response.{Token, Res, msgpack_handler_send}
use magit.Server.{Parser, read_stdin}
use magit.Worker.Request.{Request}
use magit.Worker.Handler.{Globals, after_git_root, git_root_worker, git_handler_queue_git_status}

-- The work that was queued and has not come back, and what went to standard output.
pub record Loop : Type 0 where
  pub pending : List Request
  pub out : Bytes

-- A request that came back, with the status of its work.
abbrev pub Served : Type 0
Served = Code × Request

abbrev pub queued_as : Option Request → List Request
queued_as none = []
queued_as (some req) = req ∷ []

module _ (g : Git) (b : StatusBits) (globals : Globals g) (unpack : Bytes → Option Unpacked)
    (write : Token → Bytes) (accepts : ℕ → Code) where
  -- git_handler_queue_git_status as a change of the loop.
  unfoldable pub enqueue : Loop → ℕ → Option Bytes → Loop
  enqueue l id pwd = record l {
    pending =
        l.pending
        ++ queued_as (git_handler_queue_git_status g b globals (accepts id) id pwd).request;
  }

  -- The callback of the parser.
  unfoldable pub recv : Loop → Bytes → Loop
  recv l message = (msgpack_handler_recv enqueue unpack l message).0

  abbrev pub sent_bytes : Option Res → Bytes
  sent_bytes none = []
  sent_bytes (some res) = msgpack_handler_send write res

  -- A thread of the pool runs a request, and the loop hands it to `after_git_root` with a status;
  -- meanwhile other requests come back, and input is read, in any order.
  pub data Step : List Bytes → List Served → Parser Loop → Parser Loop → Type 0 where
    reads :
        {p q : Parser Loop} (chunk : Bytes)
        → read_stdin recv p (some chunk) ≡ some q
        → Step (chunk ∷ []) [] p q
    comes_back :
        {p : Parser Loop} (status : Code) (before after : List Request) (req done : Request)
        → p.loop.pending ≡ before ++ req ∷ after
        → git_root_worker g b req ≡ some done
        → Step [] ((status, req) ∷ []) p (record p {
          loop = record {
            pending = before ++ after;
            out = p.loop.out ++ sent_bytes (after_git_root status done).sent;
          };
        })

  -- The server from one state to another, with the chunks that it read and the requests that came
  -- back, in their order.
  pub data Serves : List Bytes → List Served → Parser Loop → Parser Loop → Type 0 where
    rests : {p : Parser Loop} → Serves [] [] p p
    goes_on :
        {chunks more whole : List Bytes} {order back all : List Served} {p q r : Parser Loop}
        → Serves chunks order p q
        → Step more back q r
        → whole ≡ chunks ++ more
        → all ≡ order ++ back
        → Serves whole all p r
