-- ===== src/Lib.antt =====
-- Verification of the Python code of infinity-autopilot: the derivation of the error-state Kalman
-- filter with the functions that are generated from it, the generators of the C++ topic types and
-- of the parameters' table, the bridge between MAVLink and the Gazebo simulator, and of the C++
-- code the ring buffer.
--
-- The program's parts, and the files that model them:
--
-- src/modules/EKF/python/ekf_derivation.py derives the filter symbolically. `vstate_to_state`,
-- `predict_covariance` and what it calls are in Ekf/Derivation; `jacobian_chain_rule` and the five
-- `compute_*_innov_var_and_h` in Ekf/Measurement; `BuildTangentStateIndex` in Ekf/Layout. The data
-- are in Ekf/Types. The derivation builds expressions, so its functions are run over the
-- operations of a ring, which are those on expressions (Ring/Expr) where the code derives.
--
-- SymForce, which the derivation calls, is a third-party package. Ekf/Symforce takes it as the
-- record `Symforce` of its operations (quaternion and rotation arithmetic, `diff`, the
-- substitutions, matrix sums and products) with the record `IsSymforce` of what its documentation
-- says of them; Ekf/Symforce/Reference is a concrete one. The derivative is specified by dual
-- numbers (Ring/Dual). The substitution of 0 for dt² is specified on expressions of degree two in
-- dt only: it drops the square term. Ekf/Validation/Quadratic treats the rotation error, to which
-- the code applies it.
--
-- src/modules/EKF/python/generated holds the functions that SymForce writes. They are in
-- Ekf/Generated, term by term, with the shape tests in front of them (Ekf/Generated/Arrays).
-- `predict_covariance` is in Ekf/Generated/PredictCovariance: the intermediate terms that do not
-- read P are in Motion, those that do in Rows, the 225 entries by columns in Attitude, Velocity,
-- Position and Bias. P is two-dimensional, and `predict_covariance` refuses it where an entry that it
-- reads is missing; for the measurements' functions P is taken to hold the entries that they read.
--
-- Ekf/Validation compares the generated functions with the derivation. The identities of
-- polynomials are decided by a normal form (Ring/Poly, Ring/Solver, Ring/Sound), in every
-- commutative ring in which 2 has an inverse.
--
-- src/modules/EKF/python/code_generation.py writes the C++ header of the state:
-- `build_state_struct`, `build_tangent_state_struct` and `generate_state_header` are in
-- Ekf/StateHeader, as the text of the file and whether an exception cuts it short; the order in
-- which its `Data()` fills the state vector is also in Ekf/Layout, as a function. The end of
-- ekf_derivation.py, which calls the generators, is in Ekf/Script, with the printing of a
-- generated C++ file by `generate_cpp_function`. Ekf/Validation/Segments, DataText, Header, IndexText and
-- Script are about these. Ekf/HeaderExamples compares the model's header with
-- src/modules/EKF/python/generated/state.h, character by character.
--
-- scripts/srimb/generate_topic.py: `parse_msg_file` is in Topic/Parse, `generate_header` and
-- `generate_metadata` in Topic/Render, `main` in Topic/Generate as the list of the directories
-- made and of the files written; Topic/Generate/Texts and Files
-- have the texts of these files. scripts/params/generate_params.py: `collect_params` is in
-- Params/Collect, on the values of Params/Yaml, with documents of the files' structure in
-- Params/Validation/Documents, and `generate` in Params/Generate. The operations
-- of `str` that the generators use are in Text.
--
-- scripts/simulation/gazebo/infinity_gazebo_bridge.py is in Bridge: the physical constants and the
-- two formulas of the atmosphere in Bridge/Atmosphere, the messages in Bridge/Messages, the
-- callbacks `_on_imu` to `_on_lidar` with `_send_hil_sensor` in Bridge/Sensors,
-- `_send_motor_speeds` in Bridge/Motors, and in Bridge/Threads the state of `SensorBridge` with
-- `step`, which takes one event: a callback, a step of the thread of `_mavlink_rx_loop`, or the
-- interrupt of `run`. A list of events is an interleaving. Bridge/Float takes the floating-point
-- numbers as a parameter, with what IEEE 754 says of their order as a law, and the laws of the
-- real numbers only for the formulas of the atmosphere; Bridge/Fractions and Bridge/Residues are
-- concrete stand-ins. The readings of the clock are part of the events, and `accepts` tells
-- whether MAVLink's packing of a message raises no exception. An exception in a callback ends that
-- callback alone; in the receiving thread it ends the thread. Gazebo's transport is taken to make
-- one callback at a time.
--
-- lib/ringbuffer/RingBuffer.hpp is in RingBuffer, for a target with 32-bit `size_t`: the array is
-- a function with its size, `none` is undefined behaviour (the null pointer, an access out of
-- bounds, a division by zero), and sums and differences wrap around. RingBuffer/Queue relates a
-- buffer to the queue that it holds, its child modules treat the calls one by one, and
-- RingBuffer/Runs a series of calls, as the mutex orders them. The flag of `drain_all` is read
-- within its call, and the products with `sizeof` are taken not to overflow.
--
-- Choices. The filter's numbers are an arbitrary commutative ring with a half: the theorems are
-- about the exact formulas, and rounding is outside the model. SymPy's `expand` and `factor` do
-- not change values and are part of the substitutions' contract. Symbols are numbered: the state
-- is 0 to 15, the error 20 to 34, the noise 40 to 45, the inputs 50 to 60, gravity 61, P from 100.
-- Texts are lists of code points, with Python's white space and its universal newlines; the
-- digest, the case mappings of `str` and the printing of lists and dictionaries are parameters.
-- Directory listings, file contents and parsed YAML are inputs, and writing a file is taken to
-- succeed. The loops of the code run over lists and are recursive on them; only `decimal` has
-- fuel, which is the number it prints.
--
-- Not modelled: the other C++ code, `sign_no_zero` and `add_epsilon_sign` of code_generation.py,
-- which nothing calls, establishing the bridge's connections, command lines and progress messages.
pub mod Prelude
pub mod Ring
pub mod Text
pub mod Ekf
pub mod Topic
pub mod Params
pub mod Bridge
pub mod RingBuffer
