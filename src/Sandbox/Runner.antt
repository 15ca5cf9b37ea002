-- ===== src/Sandbox/Runner.antt =====
-- sandbox/runner.py: the program that runs in the sandbox's container. The file system, the
-- subprocess of pip, the object store and the user's module are parameters; `sys.stdout` is a buffer
-- that only a flushing print empties, and both streams end in one output.
-- The alarm that interrupts a handler is part of the parameter `call`, which may raise TimeoutError.
pub mod Platform
pub mod Code
pub mod Main
pub mod Exits
pub mod Environ
pub mod Still
pub mod Secrets
pub mod Samples
mod Tests
