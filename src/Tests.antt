-- ===== src/Tests.antt =====
-- Tests of the definitions on concrete inputs, and an instance of every theorem with hypotheses.
mod Assembly
mod Poll
mod Broker
mod Router
mod Presenter
mod Runner
mod Serving
mod Shell
mod Handlers
mod Login
