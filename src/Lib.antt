-- ===== src/Lib.antt =====
-- The backend of the BMO companion device: an Express and WebSocket server for a hardware device,
-- and an application API (`p9`) over a PostgreSQL database.
--
-- The parts, and the files that model them (paths from the repository's root):
--   RequestStore      backend/src/domain/request-store.ts. `RequestStore` is the record of its two
--                     maps and two settings; a method of the class is the function of that name in
--                     snake case, from store to store and result.
--   Admission         backend/src/p9/http/avatar-upload-admission.ts, `BoundedAvatarUploadAdmission`.
--                     A promise that `acquire` returns is a ticket; the leases that are out are part
--                     of the state.
--   Session           backend/src/p9/services/session.service.ts over the tables of
--                     backend/prisma/schema.prisma.
--   Wav               backend/src/utils/wav-validator.ts, `validateCanonicalWav`.
--   Pairing           backend/src/p9/services/hardware-enrollment.service.ts and `createClaimed` of
--                     backend/src/p9/services/device.service.ts. Each `databaseNow` is an argument.
--   Registry          backend/src/websocket/device-registry.ts, `DeviceRegistry`.
--   Invitation        backend/src/p9/services/invitation.service.ts, `InvitationService`.
--   Chat              backend/src/p9/services/chat.service.ts, `BoundedChatQueue` and `ChatService`,
--                     with the chat operations of backend/src/p9/db/repositories.ts. The reply of
--                     the assistant is an argument of the call that stores it.
--   TempAudio         backend/src/services/temp-audio.service.ts, `TempAudioService`, over a
--                     directory.
--   Voice             backend/src/services/voice-pipeline.service.ts, `VoicePipelineService`, over
--                     RequestStore and TempAudio. The events of a run are the answers of the awaited
--                     calls, the time limit, and calls that other parts make of the two.
--   Schedule          backend/src/p9/schedule.recurrence.ts, `nextOccurrence`.
--   Database, Errors  the interface of the database client, and backend/src/p9/errors.ts.
--   Base              shared tests, lists, results and the dictionary that stands for a `Map`.
--
-- How code is read. A text that is only compared or passed on (an id, a hash, a path) is a number,
-- and 0 is the empty text where the code tests for it. Times are milliseconds; a reading of a clock
-- is an argument of the call that makes it. A class is a record, and a method returns the new
-- record with its result; what a method wrote before it threw stays written. A database
-- transaction is a function on the tables; one that throws returns the tables as they were.
-- The database client, digests and signatures are parameters with their documented laws.
--
-- Fuel. `while` loops recur on a list that counts the rounds they can make: the entries of the map
-- in `evict` of RequestStore and of TempAudio, the waiters in `dispatch`, the jobs that wait in
-- `drain`, since each round removes one of them; `scan` has the length of the buffer as fuel, and
-- each round moves on by eight bytes; `retry` counts the eight attempts of the source. That this is
-- enough is proved with each.
--
-- Not modelled: route handlers and middleware that only decode requests, the process entry points,
-- the clients of outside services, and the parts of the repository in other languages. Of the
-- application API, the accounts, memory, integrations, settings, avatars, reports, proactive
-- deliveries and the two WebSocket servers have no model here.
pub mod Base
pub mod RequestStore
pub mod Errors
pub mod Database
pub mod Admission
pub mod Schedule
pub mod Session
pub mod TempAudio
pub mod Voice
pub mod Wav
pub mod Chat
pub mod Invitation
pub mod Registry
pub mod Pairing
