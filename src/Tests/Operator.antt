-- ===== src/Tests/Operator.antt =====
-- A script of an operator.
use etsimec.Prelude.{
  Bool, true, false, some, map, Str, str, Outcome, ok, throws, aborts, List, [], ◌∷◌, ◌++◌, ◌≡◌,
  refl, Str-discrete,
}
use etsimec.Prelude.Dict.{lookup, insert, erase}
use etsimec.Rest.Sample.{Json, sample, sample-IsLawful}
use etsimec.StaticProxy.{
  Notification, AddressAppKey-discrete, find, associate_address, remove_address, contexts,
}
use etsimec.Notify.{Answer, answered, notify_clients, notify_one, post_event, notification_event}
use etsimec.Grpc.{associate, remove}
use etsimec.Grpc.Client
use etsimec.FileProxy.{words, words_after}
use etsimec.Console.{line_feed, command_of, execute_lines}
use etsimec.Operator.{Server, checked, settle, remote, direct}
use etsimec.Operator.Script.{execute_lines-direct}
use etsimec.LcmProxy.{handle_app_list}
use etsimec.Client.{app_list}
use etsimec.Grpc.Lambda.{lambda_value}
use etsimec.Operator.Lambdas.{on_command, is_in, AreUnique}
use etsimec.Operator.Offered.{on_lines, on_tokens}
use etsimec.Operator.Listed.{AreLambdaLines, app_list-execute_lines}
use etsimec.Tests.Data.{proxy, proxy-IsConsistent}

abbrev server : Server
server = record { apps = []; routes = proxy; sent = [] }

abbrev validate : Str → Bool
validate url = true

abbrev answer : Notification → Answer
answer n = answered 204

abbrev split : Str → Str → List Str
split line sep = words line

abbrev script : List Str
script =
    str "associate u f edge2"
    ∷ str "add-lambda g"
    ∷ str ""
    ∷ str "table"
    ∷ str "contexts"
    ∷ str "quit"
    ∷ []

execute_lines-direct_example :
    execute_lines (remote validate answer (str "lost")) (str "help") split script server
    ≡ checked (str "lost") (execute_lines (direct validate answer) (str "help") split script server)
execute_lines-direct_example =
    execute_lines-direct sample-IsLawful validate answer (str "lost") (str "help") split script
      server proxy-IsConsistent

abbrev printed : Outcome (Str × Server) → Outcome Str
printed (ok (out, s)) = ok out
printed (throws why) = throws why
printed aborts = aborts

-- The script is accepted, and the context has the new router.
associated :
    printed (
      execute_lines
        (direct validate answer)
        (str "help")
        split
        (str "associate u f edge2" ∷ str "contexts" ∷ [])
        server)
    ≡ ok (str "OK" ++ line_feed ++ str "u f edge2" ++ line_feed)
unfolding execute_lines words_after Str-discrete associate_address lookup AddressAppKey-discrete
    insert settle notify_clients notify_one post_event notification_event contexts
associated = refl

-- Without any router left for the client of the context, the service aborts at the next association,
-- and the program of the operator throws.
service_lost :
    printed (
      execute_lines
        (remote validate answer (str "lost"))
        (str "help")
        split
        (str "remove * f" ∷ str "remove u f" ∷ str "associate v f edge4" ∷ [])
        server)
    ≡ throws (str "lost")
unfolding execute_lines words_after Str-discrete associate_address remove_address find lookup
    AddressAppKey-discrete insert erase settle notify_clients notify_one post_event
    notification_event Client.associate_address Client.remove_address associate remove
service_lost = refl

abbrev lambdas : List Str
lambdas =
    str "add-lambda g"
    ∷ str "add-lambda h"
    ∷ str "num-contexts"
    ∷ str "del-lambda g"
    ∷ str ""
    ∷ str "quit"
    ∷ []

lambdas-AreLambdaLines : AreLambdaLines split lambdas
unfolding words_after command_of Str-discrete
lambdas-AreLambdaLines = (refl, (refl, (refl, (refl, (refl, (refl, tt))))))

app_list-execute_lines_example :
    (printed : Str) × (st' : Server) × (names : List Str) × (body : Json) × (execute_lines
        (remote validate answer (str "lost"))
        (str "help")
        split
        lambdas
        server
      ≡ ok (printed, st'))
    × ((handle_app_list st'.apps).body ≡ some body)
    × (app_list (handle_app_list st'.apps).status body ≡ ok (map lambda_value names))
    × AreUnique names
    × ((n : Str) → is_in n names ≡ on_lines split n lambdas false)
app_list-execute_lines_example =
    app_list-execute_lines sample-IsLawful validate answer (str "lost") (str "help") split lambdas
      server proxy-IsConsistent refl lambdas-AreLambdaLines

-- Of the two, the one that was not removed is left.
left :
    (on_lines split (str "g") lambdas false ≡ false)
    × (on_lines split (str "h") lambdas false ≡ true)
unfolding on_lines on_tokens on_command words_after command_of Str-discrete
left = (refl, refl)
