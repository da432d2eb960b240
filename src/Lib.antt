-- ===== src/Lib.antt =====
-- A verification library for katsdpcontroller, the controller of the MeerKAT Science Data
-- Processor, which launches the tasks of a subarray product on a Mesos cluster. It is about
-- src/katsdpcontroller/scheduler.py, and parts of src/katsdpcontroller/product_controller.py and
-- src/katsdpcontroller/master_controller.py.
--
-- How the parts of the program interact: Mesos offers are collected in an `Agent`, which keeps a
-- `Resource` for each kind of resource (`ScalarResource`, `RangeResource`), and its GPUs and
-- interfaces, each with resources of its own. The scheduler asks `Agent.allocate` for what a
-- `LogicalTask` needs; the result goes to a `PhysicalTask`, a `PhysicalNode` whose `set_state`
-- follows the life of the task and reports to the statistics, which the product controller shows
-- as sensors. A `SubarrayProduct` launches the tasks of a product, starts and stops capture
-- blocks on them, and goes to an error state when a critical task dies.
--
-- Which file models which part:
-- Errors: the exceptions that the modelled code raises, as values.
-- Scheduler/Decimals: `_as_decimal`. A decimal with three places is its count of thousandths.
-- Decimals/Floats: the `float` of such a decimal, in binary64; it has at most 28 digits, so the
-- exponents that are tried, up to 2 ** 64 times the range of the significand, are enough.
-- Scheduler/Resource: the class `Resource` (`add`, `allocate`, `info`); `Hooks` are the methods
-- that a subclass overrides, and `draw` is the loop of `allocate`. A method returns its result
-- and the changed object. Resource/Loop, View, Laws and Roles prove what holds for every lawful
-- subclass.
-- Scheduler/ScalarResource: the subclass for scalars.
-- Scheduler/RangeResource: the subclass for ranges; `carve` and `pick_items` are the two loops of
-- `_allocate`, `subset` and `iter` its other methods.
-- Scheduler/Devices: Devices/Requests has the requests for GPUs, interfaces and volumes, the
-- devices and `matches`; Devices itself has `Agent._match_children` (`match_children`) and the
-- loops that allocate from devices (`take_all`). A `Kind` is what these use of a kind of device.
-- Scheduler/Agent: the classes; Agent/Checks has the checks of `Agent._allocate_numa_node` and
-- `Agent.allocate`, Agent/Allocation what follows the checks, `allocate` and `can_allocate`. An
-- `Action` returns the agent also where it raises.
-- Scheduler/PhysicalNode: `TaskState`, `PhysicalNode` and `PhysicalExternal`; PhysicalNode/Stats:
-- the statistics that `PhysicalTask` reports.
-- Scheduler/Offers: the class `Scheduler`, what it holds of offers: `resourceOffers`,
-- `_resolve_offers_done`, `offerRescinded`; Offers/Roles: `_update_roles` and the parts of
-- `_launch_once` that use or release offers, and all of these as events. Which host names are
-- resolved, and when, is an input of the events. A `ResolvingOffers` object that several
-- dictionary entries share is its number in the order of creation; the calls of the driver are a
-- list.
-- Scheduler/LaunchQueue: the class `LaunchQueue` and the choice of the groups at the start of
-- `SchedulerBase._launch_once`; Scheduler/Launch: its loop that allocates the nodes of a group.
-- Scheduler/StatusUpdate: `Scheduler.statusUpdate` and `PhysicalTask.set_status`.
-- Scheduler/FakePhysicalTask: the class of that name; Scheduler/PhysicalTask:
-- `PhysicalTask.allocate`.
-- ProductController: `SubarrayProduct` and `CaptureBlock` of
-- src/katsdpcontroller/product_controller.py, with the setters of their states.
-- ProductController/Tasks has the asyncio tasks; ProductController/Operations the coroutines,
-- where `Job` says at which `await` a task waits and `advance` is what it does when the `await`
-- ends; ProductController/Requests what others call, `handle`, and the steps of the event loop,
-- `Happens`. ProductController/Control proves which operation runs in which state, Lifecycle
-- draws the conclusions; ProductController/Accounts proves what each step does to the capture
-- blocks and what the waiting tasks know of them, CaptureBlocks draws the conclusions.
-- ProductController/TaskStats: the class `TaskStats` of that file.
-- ProductConfig: `override`, `_recursive_diff` and `validate_capture_block` of
-- src/katsdpcontroller/product_config.py, on JSON values; the controllers use them on the
-- configuration of a product and on that of a capture block. ProductConfig/Difference has
-- Python's equality of values and `_recursive_diff`, ProductConfig/Validation the check;
-- ProductConfig/Overrides describes merging without `override`; the other children are proofs.
-- Numbers and booleans are values of a type `A`, up to Python's equality.
-- MasterController/Multicast: `ProductManagerBase.get_multicast_groups` of
-- src/katsdpcontroller/master_controller.py. Its `while` loop runs on fuel; twice the broadcast
-- address and four is enough for two ways through the network, as each round moves on or goes
-- around, and that only once.
-- Examples: tests on concrete inputs.
--
-- Conventions: numbers are natural, so amounts, times and priorities are not negative and a range
-- does not end before the place in front of its beginning. Strings are the native ones. A set of
-- names is a list. Loops run over the list that the source's index walks along, so they need no
-- fuel, except where this is said above; the loop over NUMA nodes and the random loop of
-- `_allocate` recurse on the number of rounds. `random.Random` is a parameter `Generator`;
-- `IsGenerator` states the documented behaviour of `choices` and `randint`, and an example
-- instantiates it. What an exception in the middle of `Resource.allocate` leaves behind is not
-- modelled; with the books in step there is none.
--
-- Not modelled: image lookup, the substitution of strings into task info, asyncio itself (in the
-- scheduler a waiter is a flag and an event; in the product controller a task is a job that
-- waits), logging, and the other modules of the program.
pub mod Prelude
pub mod Errors
pub mod MasterController
pub mod ProductConfig
pub mod ProductController
pub mod Scheduler
pub mod Examples
