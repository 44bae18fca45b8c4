-- ===== src/Processor.antt =====
-- src/processor: one function for each command. It checks the JSON body, writes the binary request,
-- has the handler execute it, and turns the binary response into JSON.
pub mod Json
pub mod Request
pub mod Perform
pub mod Deletes
pub mod Exists
pub mod Availability
pub mod SetProp
pub mod SetRoomPkg
pub mod RoomList
pub mod Segments
pub mod DateList
pub mod Codecs
pub mod RoomDay
pub mod SearchProp
pub mod SearchAvail
pub mod Base
pub mod Samples
mod Examples
