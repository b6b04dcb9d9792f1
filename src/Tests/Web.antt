-- ===== src/Tests/Web.antt =====
-- The theorems on examples/web at concrete requests and sessions.
use pgislet.Base.{◌≡◌, inl, refl, none, []}
use pgislet.Base.Dict.{lookup}
use pgislet.Errors.{is, sentinel, result_limit}
use pgislet.Web.Report.{describe}
use pgislet.Web.Report.Status.{IsOnly, status_of, kind_of, describe-status_of}
use pgislet.Web.Sessions.{Session, Server}
use pgislet.Web.Removal.{Removal, remove}
use pgislet.Web.Removal.Gone.{Answers, remove-gone}
use pgislet.Web.Removal.Calm.{remove_succeeds}
use pgislet.Tests.Islets.{calm, row, registry, calm-IsCalm, row_found, schema_found, role_found}

-- A new server, and a session.
abbrev pub fresh : Server
fresh = record { sessions = []; pending = 0 }

abbrev pub session : Session
session = record { id = "a"; used = 5 }

-- Removals where no call fails.
abbrev pub removal : Removal
removal = record { opened = none; recovering = calm; deleting = calm }

pub removal-Answers : Answers removal
removal-Answers = record {
  opened = λ e failed missing. cc failed;
  locked = λ e failed missing. cc failed;
  recovering = inl refl;
  deleting = inl refl;
}

removed_fine : (remove removal "a" registry).0 ≡ none
removed_fine =
    (remove_succeeds removal "a" registry row [] "secret" calm-IsCalm calm-IsCalm row_found
      schema_found role_found refl).0

remove-gone_example : lookup "a" (remove removal "a" registry).1.islets ≡ none
remove-gone_example = remove-gone removal removal-Answers "a" registry removed_fine

too_long : IsOnly result_limit (sentinel result_limit)
unfolding is
too_long j = refl

describe-status_of_example :
    ((describe (sentinel result_limit)).0 ≡ status_of result_limit)
    × ((describe (sentinel result_limit)).1.kind ≡ kind_of result_limit)
describe-status_of_example = describe-status_of result_limit (sentinel result_limit) too_long
