-- ===== src/MlClient/Interceptor/Observed.antt =====
-- A stream is counted once, gateway-go/internal/mlclient/interceptor.go.
use financial_ai_platform.Prelude.{
  ◌≡◌, refl, ap, arith, true, false, Option, none, some, List, [], ◌∷◌, ◌++◌, Text, append-nil,
}
use financial_ai_platform.MlClient.Interceptor.{
  Code, request_id_metadata_key, opened, attach_request_id, Calls, Received, message, end_of_file,
  failed, ObservedClientStream, record_call, open_stream, recv_msg,
}

-- The calls of `RecvMsg`, with what the stream below yields for each.
abbrev pub recv_all : ObservedClientStream → List Received → Calls → Calls
recv_all s [] calls = calls
recv_all s (r ∷ rs) calls = recv_all (recv_msg s r calls).0 rs (recv_msg s r calls).1

-- The code under which a stream is counted: that of its first end, 0 for io.EOF.
abbrev pub first_end : List Received → Option Code
first_end [] = none
first_end (message ∷ rs) = first_end rs
first_end (end_of_file ∷ rs) = some 0
first_end (failed code ∷ rs) = some code

abbrev pub counted : Text → Option Code → Calls
counted method none = []
counted method (some code) = (method, code) ∷ []

recv_all_done :
    (method : Text) (rs : List Received) (calls : Calls)
    → recv_all (record { method = method; done = true }) rs calls ≡ calls
unfolding recv_msg
recv_all_done method [] calls = refl
recv_all_done method (message ∷ rs) calls = recv_all_done method rs calls
recv_all_done method (end_of_file ∷ rs) calls = recv_all_done method rs calls
recv_all_done method (failed code ∷ rs) calls = recv_all_done method rs calls

recv_all_open :
    (method : Text) (rs : List Received) (calls : Calls)
    → recv_all (record { method = method; done = false }) rs calls
      ≡ calls ++ counted method (first_end rs)
unfolding recv_msg record_call
recv_all_open method [] calls = ground (arith, append-nil calls)
recv_all_open method (message ∷ rs) calls = recv_all_open method rs calls
recv_all_open method (end_of_file ∷ rs) calls = recv_all_done method rs (calls ++ (method, 0) ∷ [])
recv_all_open method (failed code ∷ rs) calls =
    recv_all_done method rs (calls ++ (method, code) ∷ [])

-- A stream that opens with the id of the request in its metadata is counted once, with the code of its
-- first end, however often it is read after that, and not at all while it has not ended.
pub open_stream-counted :
    (id : Text) (metadata : List (Text × Text)) (streamer : List (Text × Text) → Option Code)
    (method : Text) (rs : List Received) (calls : Calls)
    → streamer (metadata ++ (request_id_metadata_key, id) ∷ []) ≡ none
    → (s : ObservedClientStream) × (open_stream (some id) metadata streamer method calls
        ≡ (calls, some s))
      × (recv_all s rs calls ≡ calls ++ counted method (first_end rs))
unfolding open_stream attach_request_id opened
open_stream-counted id metadata streamer method rs calls opens = (
  record { method = method; done = false },
  ap (opened method calls) opens,
  recv_all_open method rs calls,
)
