-- ===== src/Examples.antt =====
-- Concrete inputs: each theorem with hypotheses or parameters, applied where they hold.
mod Samples
mod Messages
mod Output
mod Handlers
mod Inputs
mod Settings
mod Files
mod Outside
mod Starting
mod Servers
mod Supervising
mod Decoding
mod Delivering
mod Capturing
mod Listening
