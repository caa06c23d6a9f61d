-- ===== src/Publish/Tests.antt =====
-- An upload that fails at the provenance marks.
use contents_factory.Common.{[], nat_eq, refl}
use contents_factory.Enums.{ChannelHealthState, ContentStatus, OrderStatus}
use contents_factory.Errors.{err, ok, other}
use contents_factory.Publish.{Services, process}
use contents_factory.Publish.Uploads.{Ended, process_outcome}
use contents_factory.Samples.{channel_in, content_in, db_of, env_up}
use contents_factory.Store.{Db}

abbrev services : Services
services = record { credentials = ok tt; optimized = ok tt; marks = err other; uploaded = ok 900 }

abbrev db_approved : Db
db_approved = db_of ContentStatus.approved OrderStatus.running []

process_outcome_example :
    Ended services 4 2
      (content_in ContentStatus.approved)
      (process env_up 0 services 4 2 db_approved)
process_outcome_example =
    process_outcome env_up 0 services 4 2 db_approved (content_in ContentStatus.approved)
      (channel_in ChannelHealthState.active) refl refl refl refl refl
