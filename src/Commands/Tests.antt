-- ===== src/Commands/Tests.antt =====
-- A request to send a block, to a node that answers every command with a number.
use dragoonfly.Base.{ℕ, ◌≡◌, refl, ◌⊎◌, true, false, String, Option, some}
use dragoonfly.Base.Result.{ok}
use dragoonfly.Errors.{internal_server_error}
use dragoonfly.Strategy.{PeerId}
use dragoonfly.Commands.Defs.{DragoonCommand, send_block_to}
use dragoonfly.Commands.Handlers.{
  Request, Response, create_cmd_send_block_to, create_cmd, handle, handle-status, succeeds, success,
  Awaited, pending, answered, waits, responds,
}
use dragoonfly.Commands.Routes.{router, SameName, create_cmd-router}

abbrev seven : String → Option PeerId
seven id = some 7

abbrev send_request : Request
send_request = create_cmd_send_block_to "peer" "f" "a"

made : create_cmd seven send_request ≡ some (send_block_to 7 "f" "a")
unfolding create_cmd
made = refl

abbrev forty_two : DragoonCommand → Awaited String ℕ
forty_two cmd = answered (ok 42)

abbrev unsent : DragoonCommand → String
unsent cmd = "SendError"

abbrev itself : String → String
itself e = e

handle-status_example :
    ((true ≡ true)
      × (forty_two (send_block_to 7 "f" "a") ≡ pending)
      × (handle itself unsent seven true forty_two send_request ≡ waits))
    ⊎ ((r : Response ℕ) × (handle itself unsent seven true forty_two send_request ≡ responds r)
        × (((a : ℕ) × (true ≡ true)
              × (forty_two (send_block_to 7 "f" "a") ≡ answered (ok a))
              × (r ≡ success a))
            ⊎ ((succeeds true (forty_two (send_block_to 7 "f" "a")) ≡ false)
                × (r.status ≡ internal_server_error))))
handle-status_example =
    handle-status itself unsent seven true forty_two send_request (send_block_to 7 "f" "a") made

create_cmd-router_example : SameName (router send_request).name (send_block_to 7 "f" "a")
create_cmd-router_example = create_cmd-router seven send_request (send_block_to 7 "f" "a") made
